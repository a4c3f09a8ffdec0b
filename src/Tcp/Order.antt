-- ===== src/Tcp/Order.antt =====
-- The order in which tcp_session.hpp sends what is queued.
use drone_server.Prelude.{
  Bool, List, [], add-zero, ap, arith, drop, false, if_holds, length, length-append, length-drop,
  refl, suc, sym, take, true, zero, ℕ, ◌++◌, ◌+◌, ◌∙◌, ◌∷◌, ◌≡◌, ◌≤◌,
}
use drone_server.Prelude.Bytes.{Bytes}
use drone_server.Tcp.{
  TcpSession, async_write, close_session, do_write, hand_front, write_done, write_failed,
}
use drone_server.Tcp.Steps.{Run, begins, closed_later, completed_after, failed_after, queued_after}

-- One, while a write is under way.
abbrev pub under_way : Bool → ℕ
under_way true = 1
under_way false = 0

abbrev pub closed_once : Bool → ℕ
closed_once true = 0
closed_once false = 1

-- After `msgs` were given to a session and `n` of them were written: the rest is queued, what was handed
-- to the socket is the first of them, with at most one more than were written, and `on_close` was called
-- once if the session is closed.
pub record IsInOrder (s : TcpSession) (msgs : List Bytes) (n : ℕ) : Type 0 where
  pub left : s.send_queue ≡ drop n msgs
  pub sent : s.handed ≡ take (n + under_way s.sending) msgs
  pub within : n + under_way s.sending ≤ length msgs
  pub once : s.closings ≡ closed_once s.is_open

module _ {ℓ} {A : Type ℓ} where
  take-suc :
      (n : ℕ) (xs : List A) (x : A) (ys : List A)
      → drop n xs ≡ x ∷ ys
      → take (suc n) xs ≡ take n xs ++ x ∷ []
  take-suc zero [] x ys e = absurd cc
  take-suc zero (z ∷ xs) x ys e = cc
  take-suc (suc n) [] x ys e = absurd cc
  take-suc (suc n) (z ∷ xs) x ys e = ap (◌∷◌ z) (take-suc n xs x ys e)

  drop-suc : (n : ℕ) (xs : List A) → drop 1 (drop n xs) ≡ drop (suc n) xs
  drop-suc zero [] = refl
  drop-suc zero (x ∷ xs) = refl
  drop-suc (suc n) [] = refl
  drop-suc (suc n) (x ∷ xs) = drop-suc n xs

  drop-length : (n : ℕ) (xs : List A) (x : A) (ys : List A) → drop n xs ≡ x ∷ ys → suc n ≤ length xs
  drop-length n xs x ys e = omega (arith, length-drop n xs, ap length e)

  drop-snoc : (n : ℕ) (xs ys : List A) → n ≤ length xs → drop n (xs ++ ys) ≡ drop n xs ++ ys
  drop-snoc zero xs ys h = refl
  drop-snoc (suc n) [] ys h = absurd (omega (arith, h))
  drop-snoc (suc n) (x ∷ xs) ys h = drop-snoc n xs ys (omega (arith, h))

  take-snoc : (n : ℕ) (xs ys : List A) → n ≤ length xs → take n (xs ++ ys) ≡ take n xs
  take-snoc zero xs ys h = refl
  take-snoc (suc n) [] ys h = absurd (omega (arith, h))
  take-snoc (suc n) (x ∷ xs) ys h = ap (◌∷◌ x) (take-snoc n xs ys (omega (arith, h)))

pub close_session-IsInOrder :
    (s : TcpSession) (msgs : List Bytes) (n : ℕ)
    → IsInOrder s msgs n
    → IsInOrder (close_session s) msgs n
unfolding close_session
close_session-IsInOrder s msgs n h =
    if_holds (λ s'. IsInOrder s' msgs n) s.is_open _ s
      (λ e. record {
        left = h.left;
        sent = h.sent;
        within = h.within;
        once = omega (arith, h.once ∙ ap closed_once e);
      })
      (λ _. h)

-- A write that is handed to the socket.
handed_next :
    (msg : Bytes) (rest : List Bytes) (s : TcpSession) (msgs : List Bytes) (n : ℕ)
    → s.send_queue ≡ msg ∷ rest
    → s.sending ≡ false
    → IsInOrder s msgs n
    → IsInOrder (record s { sending = true; handed = s.handed ++ msg ∷ [] }) msgs n
handed_next msg rest s msgs n q idle h =
    let next : suc n ≡ n + 1 = omega arith in
    let front : drop n msgs ≡ msg ∷ rest = sym h.left ∙ q in
    record {
      left = h.left;
      sent =
          ap (λ xs. xs ++ msg ∷ [])
            (h.sent
              ∙ ap (λ b. take (n + under_way b) msgs) idle
              ∙ ap (λ k. take k msgs) (add-zero n))
          ∙ sym (take-suc n msgs msg rest front)
          ∙ ap (λ k. take k msgs) next;
      within = omega (arith, drop-length n msgs msg rest front);
      once = h.once;
    }

hand_front-IsInOrder :
    (queue : List Bytes) (s : TcpSession) (msgs : List Bytes) (n : ℕ)
    → s.send_queue ≡ queue
    → IsInOrder s msgs n
    → IsInOrder (hand_front queue s) msgs n
hand_front-IsInOrder [] s msgs n q h = h
hand_front-IsInOrder (msg ∷ rest) s msgs n q h =
    if_holds (λ s'. IsInOrder s' msgs n) s.sending s _ (λ _. h)
      (λ e. handed_next msg rest s msgs n q e h)

pub do_write-IsInOrder :
    (s : TcpSession) (msgs : List Bytes) (n : ℕ)
    → IsInOrder s msgs n
    → IsInOrder (do_write s) msgs n
unfolding do_write
do_write-IsInOrder s msgs n h =
    if_holds (λ s'. IsInOrder s' msgs n) s.is_open _ _
      (λ _. hand_front-IsInOrder s.send_queue s msgs n refl h)
      (λ _. close_session-IsInOrder s msgs n h)

queued-IsInOrder :
    (msg : Bytes) (s : TcpSession) (msgs : List Bytes) (n : ℕ)
    → IsInOrder s msgs n
    → IsInOrder (record s { send_queue = s.send_queue ++ msg ∷ [] }) (msgs ++ msg ∷ []) n
queued-IsInOrder msg s msgs n h = record {
  left =
      ap (λ q. q ++ msg ∷ []) h.left ∙ sym (drop-snoc n msgs (msg ∷ []) (omega (arith, h.within)));
  sent = h.sent ∙ sym (take-snoc (n + under_way s.sending) msgs (msg ∷ []) h.within);
  within = omega (arith, h.within, length-append msgs (msg ∷ []));
  once = h.once;
}

async_write-IsInOrder :
    (msg : Bytes) (flush : Bool) (s : TcpSession) (msgs : List Bytes) (n : ℕ)
    → IsInOrder s msgs n
    → IsInOrder (async_write msg flush s) (msgs ++ msg ∷ []) n
unfolding async_write
async_write-IsInOrder msg true s msgs n h =
    do_write-IsInOrder (record s { send_queue = s.send_queue ++ msg ∷ [] }) (msgs ++ msg ∷ []) n
      (queued-IsInOrder msg s msgs n h)
async_write-IsInOrder msg false s msgs n h = queued-IsInOrder msg s msgs n h

pub write_done-IsInOrder :
    (s : TcpSession) (msgs : List Bytes) (n : ℕ)
    → s.sending ≡ true
    → IsInOrder s msgs n
    → IsInOrder (write_done s) msgs (suc n)
unfolding write_done
write_done-IsInOrder s msgs n e h =
    let next : n + 1 ≡ suc n + 0 = omega arith in
    do_write-IsInOrder (record s { send_queue = drop 1 s.send_queue; sending = false }) msgs (suc n)
      (record {
        left = ap (drop 1) h.left ∙ drop-suc n msgs;
        sent = h.sent ∙ ap (λ b. take (n + under_way b) msgs) e ∙ ap (λ k. take k msgs) next;
        within = omega (arith, h.within, ap under_way e);
        once = h.once;
      })

-- Whatever is queued, flushed or not, and in whatever order writes end, fail and the session is closed:
-- what was handed to the socket is the first of what was queued, each message once and in the order of
-- the calls; at most one more was handed than were written; the rest waits; and `on_close` is called
-- once, when the session is closed.
pub Run-IsInOrder : {s : TcpSession} {msgs : List Bytes} {n : ℕ} → Run s msgs n → IsInOrder s msgs n
unfolding write_failed
Run-IsInOrder begins = record { left = refl; sent = refl; within = omega arith; once = refl }
Run-IsInOrder (queued_after {s} {msgs} {n} msg flush r) =
    async_write-IsInOrder msg flush s msgs n (Run-IsInOrder r)
Run-IsInOrder (completed_after {s} {msgs} {n} e r) =
    write_done-IsInOrder s msgs n e (Run-IsInOrder r)
Run-IsInOrder (failed_after {s} {msgs} {n} e r) = close_session-IsInOrder s msgs n (Run-IsInOrder r)
Run-IsInOrder (closed_later {s} {msgs} {n} r) = close_session-IsInOrder s msgs n (Run-IsInOrder r)
