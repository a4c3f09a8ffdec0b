-- ===== src/Chunk/RoundTrip.antt =====
-- The chunks after the first from write_chunk to the reading loop.
use drone_server.Chunk.{Answer, ChunkStream, complete, header, payload, requested}
use drone_server.Chunk.Payload.{paid, read_chunk_stream-chunk, waiting}
use drone_server.Chunk.Receiving.{Input, read_chunk_stream, receive, update}
use drone_server.Chunk.Rounds.{
  IsPartial, IsReceived, joined, read_header-rest, receive_again, receive_ready, send_rest-cons,
  send_rest-empty, send_rest-nonempty, send_rest-zero, stream_of-known, update_self,
}
use drone_server.Chunk.Writing.{Message, basic_header, send_rest}
use drone_server.Prelude.{
  List, Option, [], ap, append-nil, append_assoc, arith, drop, false, length, length-append,
  length-take, length-zero, refl, some, subst, suc, sym, take, take-append-drop, zero, ℕ, ◌++◌, ◌<◌,
  ◌∙◌, ◌∷◌, ◌≡◌, ◌≢◌, ◌≤◌,
}
use drone_server.Prelude.Bytes.{Bytes}
use drone_server.Prelude.Outcome.{Outcome, ok}

-- What the loop ends with: the message is in the stream of its id, at the time `t`,
-- the other streams are as before, the rest of the input is unread, and the next chunk is awaited.
abbrev pub Delivers :
    ℕ
    → ℕ
    → ℕ
    → ℕ
    → ℕ
    → (ℕ → Option ChunkStream)
    → Message
    → Bytes
    → Bytes
    → Outcome (Answer × Input)
    → Type 0
Delivers max_chunk_size fresh_fmt fresh_rem csid t cs m msg rest out =
    (cs' : ℕ → Option ChunkStream) × (s : ChunkStream) × (fmt : ℕ) × (out
      ≡ ok (complete, waiting max_chunk_size fresh_fmt fresh_rem cs' fmt csid rest))
    × (cs' csid ≡ some s)
    × IsReceived t m msg s
    × ((k : ℕ) → csid ≢ k → cs' k ≡ cs k)

requested-length :
    (max_chunk_size : ℕ) (xs : Bytes)
    → length (take (requested max_chunk_size (length xs)) xs) ≡ requested max_chunk_size (length xs)
requested-length max_chunk_size xs =
    ground (arith, length-take (requested max_chunk_size (length xs)) xs)

pub update-other {ℓ} : {A : Type ℓ} (f : ℕ → A) (k j : ℕ) (v : A) → k ≢ j → update f k v j ≡ f j
update-other f k j v h = ground arith

module _ (max_chunk_size fresh_fmt fresh_rem csid : ℕ) (small : csid < 64)
    (positive : 0 < max_chunk_size) (t : ℕ) (m : Message) (rest : Bytes) where
  -- The state after a chunk of format 3 with the payload `xs`.
  abbrev rest_stream : ChunkStream → Bytes → ChunkStream
  rest_stream s xs = paid (record s { fmt = 3; phase = payload }) xs

  rest_round :
      (cs : ℕ → Option ChunkStream) (fmt csid₀ : ℕ) (s : ChunkStream) (xs more : Bytes)
      → cs csid ≡ some s
      → s.phase ≡ header
      → s.ext_ts ≡ false
      → 0 < s.rem
      → length xs ≡ requested max_chunk_size s.rem
      → read_chunk_stream (
          waiting max_chunk_size fresh_fmt fresh_rem cs fmt csid₀
            (basic_header 3 csid ∷ (xs ++ more)))
        ≡ (
          complete,
          waiting max_chunk_size fresh_fmt fresh_rem
              (update cs csid (some (rest_stream s xs)))
              3
              csid
              more,
        )
  rest_round cs fmt csid₀ s xs more known at_header plain left e =
      read_chunk_stream-chunk max_chunk_size fresh_fmt fresh_rem cs fmt csid₀ 3 csid s
        (record s { fmt = 3; phase = payload }) (xs ++ more) xs more (omega arith) small known
        (read_header-rest s (xs ++ more) at_header plain left) refl e

  receive_last :
      (g : ℕ) (sofar xs : Bytes) (cs : ℕ → Option ChunkStream) (fmt csid₀ : ℕ) (s : ChunkStream)
      → cs csid ≡ some s
      → s.phase ≡ header
      → IsPartial t m sofar xs s
      → 0 < length xs
      → length xs ≡ requested max_chunk_size s.rem
      → Delivers max_chunk_size fresh_fmt fresh_rem csid t cs m (sofar ++ xs) rest (
          receive (suc g) (
            waiting max_chunk_size fresh_fmt fresh_rem cs fmt csid₀
              (basic_header 3 csid ∷ (xs ++ rest))))
  receive_last g sofar xs cs fmt csid₀ s known at_header part lo e = (
    update cs csid (some (rest_stream s xs)),
    rest_stream s xs,
    3,
    receive_ready g _ _
        (rest_round cs fmt csid₀ s xs rest known at_header part.no_extended
          (omega (arith, part.some_left)) e)
        (rw
          (stream_of-known
            (waiting max_chunk_size fresh_fmt fresh_rem (update cs csid (some (rest_stream s xs))) 3
              csid rest)
            (rest_stream s xs) (update_self cs csid (some (rest_stream s xs))))
          (ground arith)),
    update_self cs csid (some (rest_stream s xs)),
    record {
      is_ready = ground arith;
      whole = rw part.content_sofar;
      same_len = part.same_len;
      same_type = part.same_type;
      same_stream = part.same_stream;
      same_time = part.same_time;
      nothing_left = ground arith;
      at_header = refl;
      no_extended = part.no_extended;
    },
    λ k ne. update-other cs csid k (some (rest_stream s xs)) ne,
  )

  receive_more :
      (g : ℕ) (sofar msg xs more : Bytes) (cs : ℕ → Option ChunkStream) (fmt csid₀ : ℕ)
      (s : ChunkStream)
      → cs csid ≡ some s
      → s.phase ≡ header
      → IsPartial t m sofar msg s
      → length xs ≡ requested max_chunk_size s.rem
      → length xs < length msg
      → 0 < length more
      → receive (suc g) (
          waiting max_chunk_size fresh_fmt fresh_rem cs fmt csid₀
            (basic_header 3 csid ∷ (xs ++ more)))
        ≡ receive g (
            waiting max_chunk_size fresh_fmt fresh_rem
              (update cs csid (some (rest_stream s xs)))
              3
              csid
              more)
  receive_more g sofar msg xs more cs fmt csid₀ s known at_header part e lt lo =
      receive_again g _ _
        (rest_round cs fmt csid₀ s xs more known at_header part.no_extended
          (omega (arith, part.some_left)) e)
        (rw
          (stream_of-known
            (waiting max_chunk_size fresh_fmt fresh_rem (update cs csid (some (rest_stream s xs))) 3
              csid more)
            (rest_stream s xs) (update_self cs csid (some (rest_stream s xs))))
          (ground arith))
        (ground arith)

  -- Where the streams other than `csid` are as they were before, they are as they were before that.
  pub Delivers-update :
      (cs : ℕ → Option ChunkStream) (v : Option ChunkStream) (msg : Bytes)
      (out : Outcome (Answer × Input))
      → Delivers max_chunk_size fresh_fmt fresh_rem csid t (update cs csid v) m msg rest out
      → Delivers max_chunk_size fresh_fmt fresh_rem csid t cs m msg rest out
  Delivers-update cs v msg out (cs', s, fmt, e, known, received, others) =
      (cs', s, fmt, e, known, received, λ k ne. others k ne ∙ update-other cs csid k v ne)

  rest_stream-IsPartial :
      (s : ChunkStream) (sofar pay msg : Bytes)
      → 0 < length msg
      → IsPartial t m sofar (pay ++ msg) s
      → IsPartial t m (sofar ++ pay) msg (rest_stream s pay)
  rest_stream-IsPartial s sofar pay msg lo part = record {
    some_left = omega (arith, part.some_left, length-append pay msg);
    content_sofar = rw part.content_sofar;
    same_len = part.same_len;
    same_type = part.same_type;
    same_stream = part.same_stream;
    same_time = part.same_time;
    no_extended = part.no_extended;
    not_ready = ground (arith, part.some_left, length-append pay msg);
  }

  receive_step :
      (g : ℕ) (sofar pay msg : Bytes) (more : List Bytes) (cs : ℕ → Option ChunkStream)
      (fmt csid₀ : ℕ) (s : ChunkStream)
      → cs csid ≡ some s
      → s.phase ≡ header
      → IsPartial t m sofar (pay ++ msg) s
      → length pay ≡ requested max_chunk_size s.rem
      → 0 < length pay
      → (length msg ≡ 0 → more ≡ [])
      → (0 < length msg
          → (0 < length (joined more))
            × Delivers max_chunk_size fresh_fmt fresh_rem csid t
                (update cs csid (some (rest_stream s pay)))
                m
                ((sofar ++ pay) ++ msg)
                rest
                (receive g (
                  waiting max_chunk_size fresh_fmt fresh_rem
                    (update cs csid (some (rest_stream s pay)))
                    3
                    csid
                    (joined more ++ rest))))
      → Delivers max_chunk_size fresh_fmt fresh_rem csid t cs m (sofar ++ (pay ++ msg)) rest (
          receive (suc g) (
            waiting max_chunk_size fresh_fmt fresh_rem cs fmt csid₀
              (basic_header 3 csid ∷ (pay ++ (joined more ++ rest)))))
  receive_step g sofar pay [] more cs fmt csid₀ s known at_header part e lo none_more next =
      rw (none_more refl, append-nil pay)
        (receive_last g sofar pay cs fmt csid₀ s known at_header (rw (append-nil pay) at part) lo e)
  receive_step g sofar pay (y ∷ ys) more cs fmt csid₀ s known at_header part e lo none_more next =
      let (nonempty, delivers) = next (omega arith) in
      rw
        (
          receive_more g sofar (pay ++ y ∷ ys) pay (joined more ++ rest) cs fmt csid₀ s known
              at_header part e (omega (arith, length-append pay (y ∷ ys)))
              (omega (arith, length-append (joined more) rest)),
          ← append_assoc sofar pay (y ∷ ys),
        )
        (Delivers-update cs (some (rest_stream s pay)) ((sofar ++ pay) ++ y ∷ ys) _ delivers)

  pub receive_rest :
      (f : ℕ) (msg sofar : Bytes) (sent : List Bytes)
      → send_rest f max_chunk_size csid msg ≡ ok sent
      → 0 < length msg
      → (cs : ℕ → Option ChunkStream) (fmt csid₀ : ℕ) (s : ChunkStream) → cs csid ≡ some s
      → s.phase ≡ header
      → IsPartial t m sofar msg s
      → (g : ℕ) → length sent ≤ g
      → Delivers max_chunk_size fresh_fmt fresh_rem csid t cs m (sofar ++ msg) rest (
          receive g (waiting max_chunk_size fresh_fmt fresh_rem cs fmt csid₀ (joined sent ++ rest)))
  receive_rest f [] sofar sent e lo cs fmt csid₀ s known at_header part g le = absurd (omega arith)
  receive_rest zero (x ∷ xs) sofar sent e lo cs fmt csid₀ s known at_header part g le =
      absurd (send_rest-zero max_chunk_size csid (x ∷ xs) sent e)
  receive_rest (suc f) (x ∷ xs) sofar sent e lo cs fmt csid₀ s known at_header part zero le =
      absurd (omega (arith, send_rest-nonempty (suc f) max_chunk_size csid (x ∷ xs) sent e lo))
  receive_rest (suc f) (x ∷ xs) sofar sent e lo cs fmt csid₀ s known at_header part (suc g) le =
      let q = requested max_chunk_size (suc (length xs)) in
      let pay = take q (x ∷ xs) in
      let msg = drop q (x ∷ xs) in
      let (more, e', es) = send_rest-cons f max_chunk_size csid x xs sent e in
      let halves : pay ++ msg ≡ x ∷ xs = take-append-drop q (x ∷ xs) in
      rw (es, append_assoc pay (joined more) rest)
        (subst
          (λ w. Delivers max_chunk_size fresh_fmt fresh_rem csid t cs m (sofar ++ w) rest (
            receive (suc g) (
              waiting max_chunk_size fresh_fmt fresh_rem cs fmt csid₀
                (basic_header 3 csid ∷ (pay ++ (joined more ++ rest))))))
          halves
          (receive_step g sofar pay msg more cs fmt csid₀ s known at_header
            (subst (λ w. IsPartial t m sofar w s) (sym halves) part)
            (rw part.some_left (requested-length max_chunk_size (x ∷ xs)))
            (ground (arith, requested-length max_chunk_size (x ∷ xs)))
            (λ z. send_rest-empty f max_chunk_size csid more (rw (length-zero msg z) at e'))
            (λ lo'. (
              (send_rest-nonempty f max_chunk_size csid msg more e' lo').0,
              receive_rest f msg (sofar ++ pay) more e' lo'
                  (update cs csid (some (rest_stream s pay))) 3 csid (rest_stream s pay)
                  (update_self cs csid (some (rest_stream s pay))) refl
                  (rest_stream-IsPartial s sofar pay msg lo'
                    (subst (λ w. IsPartial t m sofar w s) (sym halves) part))
                  g (omega (arith, ap length es, le)),
            ))))
