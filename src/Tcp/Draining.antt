-- ===== src/Tcp/Draining.antt =====
-- That tcp_session.hpp sends all that is queued.
use drone_server.Buffer.{empty}
use drone_server.Prelude.{
  List, [], add-zero, ap, arith, drop, false, if_holds, if◌then◌else◌, length, length-drop, refl,
  subst, suc, sym, take, true, zero, ℕ, ◌+◌, ◌<◌, ◌∙◌, ◌∷◌, ◌≡◌, ◌≤◌,
}
use drone_server.Prelude.Bytes.{Bytes}
use drone_server.Tcp.{TcpSession, close_session, do_write, hand_front, write_done}
use drone_server.Tcp.Order.{Run-IsInOrder, under_way}
use drone_server.Tcp.Steps.{Run, completed_after}

-- `n` writes come to their end, one after the other, and nothing else happens.
unfoldable pub complete_writes : ℕ → TcpSession → TcpSession
complete_writes zero s = s
complete_writes (suc n) s = complete_writes n (write_done s)

length-drop1 : (q : List Bytes) (k : ℕ) → length q ≡ suc k → length (drop 1 q) ≡ k
length-drop1 [] k e = absurd (omega (arith, e))
length-drop1 (x ∷ q) k e = omega (arith, e)

-- What the next write does, of a queue that is left.
handed_front :
    (queue : List Bytes) (s : TcpSession)
    → s.sending ≡ false
    → 0 < length queue
    → (hand_front queue s).sending ≡ true
handed_front [] s e h = absurd (omega (arith, h))
handed_front (msg ∷ rest) s e h = rw e refl

hand_front-queue :
    (queue : List Bytes) (s : TcpSession)
    → ((hand_front queue s).send_queue ≡ s.send_queue) × ((hand_front queue s).is_open ≡ s.is_open)
hand_front-queue [] s = (refl, refl)
hand_front-queue (msg ∷ rest) s =
    if_holds (λ s'. (s'.send_queue ≡ s.send_queue) × (s'.is_open ≡ s.is_open)) s.sending s _
      (λ _. (refl, refl)) (λ _. (refl, refl))

-- A write that ends on an open session starts the next, where one is left.
written_open :
    (s : TcpSession)
    → s.is_open ≡ true
    → ((write_done s).send_queue ≡ drop 1 s.send_queue)
      × ((write_done s).is_open ≡ true)
      × (0 < length (drop 1 s.send_queue) → (write_done s).sending ≡ true)
unfolding write_done do_write
written_open s e =
    let s' = record s { send_queue = drop 1 s.send_queue; sending = false } in
    let (q, o) = hand_front-queue s'.send_queue s' in
    subst
      (λ b.
        ((if b then hand_front s'.send_queue s' else close_session s').send_queue
          ≡ drop 1 s.send_queue)
        × ((if b then hand_front s'.send_queue s' else close_session s').is_open ≡ true)
        × (0 < length (drop 1 s.send_queue)
            → (if b then hand_front s'.send_queue s' else close_session s').sending ≡ true))
      (sym e) (q, o ∙ e, handed_front s'.send_queue s' refl)

Run-complete_writes :
    (k : ℕ) {s : TcpSession} {msgs : List Bytes} {n : ℕ}
    → Run s msgs n
    → s.is_open ≡ true
    → length s.send_queue ≡ k
    → (0 < k → s.sending ≡ true)
    → Run (complete_writes k s) msgs (n + k) × (length (complete_writes k s).send_queue ≡ 0)
unfolding complete_writes
Run-complete_writes zero {s} {msgs} {n} r e l h = (subst (Run s msgs) (sym (add-zero n)) r, l)
Run-complete_writes (suc k) {s} {msgs} {n} r e l h =
    let next = written_open s e in
    let short : length (drop 1 s.send_queue) ≡ k = length-drop1 s.send_queue k l in
    let r' = completed_after (h (omega arith)) r in
    let rest =
      Run-complete_writes k r' next.1 (ap length next.0 ∙ short)
        (λ p. next.2 (omega (arith, p, short))) in
    let count : suc n + k ≡ n + suc k = omega arith in
    (subst (Run (complete_writes k (write_done s)) msgs) count rest.0, rest.1)

take_all : (n : ℕ) (xs : List Bytes) → length xs ≤ n → take n xs ≡ xs
take_all zero [] h = refl
take_all zero (x ∷ xs) h = absurd (omega (arith, h))
take_all (suc n) [] h = refl
take_all (suc n) (x ∷ xs) h = ap (◌∷◌ x) (take_all n xs (omega (arith, h)))

-- Where the session is open and a write is under way, and this and the following writes end without an
-- error, a write for each message in the queue is enough to empty it: then all that was queued was handed
-- to the socket, each message once and in order, those that were queued without a flush too.
pub complete_writes-drains :
    {s : TcpSession} {msgs : List Bytes} {n : ℕ}
    → Run s msgs n
    → s.is_open ≡ true
    → s.sending ≡ true
    → Run (complete_writes (length s.send_queue) s) msgs (n + length s.send_queue)
      × (length (complete_writes (length s.send_queue) s).send_queue ≡ 0)
      × ((complete_writes (length s.send_queue) s).handed ≡ msgs)
complete_writes-drains {s} {msgs} {n} r e h =
    let (r', empty) = Run-complete_writes (length s.send_queue) r e refl (λ _. h) in
    let ordered = Run-IsInOrder r' in
    let s' = complete_writes (length s.send_queue) s in
    let m = n + length s.send_queue in
    let enough : length msgs ≤ m + under_way s'.sending =
      omega (arith, length-drop m msgs, ap length ordered.left, empty) in
    (r', empty, ordered.sent ∙ take_all (m + under_way s'.sending) msgs enough)
