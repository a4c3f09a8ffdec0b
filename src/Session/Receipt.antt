-- ===== src/Session/Receipt.antt =====
-- The loop of `handle` of rtmp_session.cpp from one message to the next.
use drone_server.Chunk.{Answer, complete, incomplete, refused}
use drone_server.Chunk.Receiving.{Input, after_chunk, has_message, read_chunk_stream, receive}
use drone_server.Prelude.{
  Bool, Option, ap, arith, false, if_holds, if◌then◌else◌, length, refl, subst, suc, sym, true,
  zero, ℕ, ◌+◌, ◌==◌, ◌∙◌, ◌≡◌, ◌≤◌,
}
use drone_server.Prelude.Bytes.{Bytes}
use drone_server.Prelude.Outcome.{Outcome, ok, ◌>>=◌}
use drone_server.Session.Handling.{after_read, go_on, handle_message, handle_rounds, with_input}
use drone_server.Session.World.{World}

module _ (stoul : Bytes → Option ℕ) (fuel fresh_tid : ℕ) where
  -- What `handle` does with the input that reading leaves: a whole message is handled, and with an answer
  -- of 0 the loop goes on for at most `more` rounds; else the answer is the loop's.
  abbrev pub settle : ℕ → World → Answer × Input → Outcome (Answer × World)
  settle more w (complete, j) =
      handle_message stoul fuel fresh_tid (with_input w j)
      >>= go_on stoul fuel fresh_tid (handle_rounds stoul fuel fresh_tid more)
  settle more w (answer, j) = ok (answer, with_input w j)

  -- For some number of rounds, at least those that were to spare.
  abbrev pub Settles : ℕ → World → Outcome (Answer × World) → Answer × Input → Type 0
  Settles spare w r out = (more : ℕ) × (spare ≤ more) × (r ≡ settle more w out)

  Settles-with_input :
      (spare : ℕ) (w : World) (i : Input) (r : Outcome (Answer × World)) (out : Answer × Input)
      → Settles spare (with_input w i) r out
      → Settles spare w r out
  Settles-with_input spare w i r (complete, j) h = h
  Settles-with_input spare w i r (incomplete, j) h = h
  Settles-with_input spare w i r (refused, j) h = h

  -- A round that found no message.
  abbrev GoesOn : ℕ → ℕ → Type 0
  GoesOn rounds spare =
      (w : World) (out : Answer × Input)
      → receive rounds w.session.input ≡ ok out
      → Settles spare w (handle_rounds stoul fuel fresh_tid (rounds + spare) w) out

  out_given : (a b : Answer × Input) → ok a ≡ ok b → a ≡ b
  out_given a b e = cc e

  -- A round by what it found: a message, or no more bytes.
  round-Settles :
      (rounds spare : ℕ) (w : World) (i : Input) (out : Answer × Input) (found over : Bool)
      → GoesOn rounds spare
      → (if found then ok (complete, i) else if over then ok (incomplete, i) else receive rounds i)
        ≡ ok out
      → Settles spare w
          (if found
            then settle (rounds + spare) w (complete, i)
            else if over
            then ok (incomplete, with_input w i)
            else handle_rounds stoul fuel fresh_tid (rounds + spare) (with_input w i))
          out
  round-Settles rounds spare w i out true over again e =
      subst (Settles spare w (settle (rounds + spare) w (complete, i)))
        (out_given (complete, i) out e) (rounds + spare, omega arith, refl)
  round-Settles rounds spare w i out false true again e =
      subst (Settles spare w (ok (incomplete, with_input w i))) (out_given (incomplete, i) out e)
        (spare, omega arith, refl)
  round-Settles rounds spare w i out false false again e =
      Settles-with_input spare w i
        (handle_rounds stoul fuel fresh_tid (rounds + spare) (with_input w i)) out
        (again (with_input w i) out e)

  after_read-Settles :
      (rounds spare : ℕ) (w : World) (r out : Answer × Input)
      → GoesOn rounds spare
      → after_chunk (receive rounds) r ≡ ok out
      → Settles spare w
          (after_read stoul fuel fresh_tid
            (handle_rounds stoul fuel fresh_tid (rounds + spare))
            w
            r)
          out
  after_read-Settles rounds spare w (incomplete, i) out again e =
      subst (Settles spare w (ok (incomplete, with_input w i))) (out_given (incomplete, i) out e)
        (spare, omega arith, refl)
  after_read-Settles rounds spare w (refused, i) out again e =
      subst (Settles spare w (ok (refused, with_input w i))) (out_given (refused, i) out e)
        (spare, omega arith, refl)
  after_read-Settles rounds spare w (complete, i) out again e =
      round-Settles rounds spare w i out (has_message i) (length i.recv_buf == 0) again e

  -- The loop as its round, and where there is nothing to read.
  handle_rounds-step :
      (rounds spare : ℕ) (w : World) (out : Answer × Input)
      → Settles spare w (handle_rounds stoul fuel fresh_tid (suc (rounds + spare)) w) out
      → Settles spare w (handle_rounds stoul fuel fresh_tid (suc rounds + spare) w) out
  handle_rounds-step rounds spare w out h =
      let same : suc (rounds + spare) ≡ suc rounds + spare = omega arith in
      subst (λ n. Settles spare w (handle_rounds stoul fuel fresh_tid n w) out) same h

  read_empty : (i : Input) → (length i.recv_buf == 0) ≡ true → read_chunk_stream i ≡ (incomplete, i)
  unfolding read_chunk_stream
  read_empty i e = rw (e, read_chunk_stream) refl

  -- Where reading alone, on some rounds, leads to the first whole message, or to the end of the bytes, or
  -- to a refusal, the loop of `handle`, on these rounds and any to spare, does that reading and no other
  -- before it handles the message, and then goes on on at least the rounds to spare; where there is no
  -- message it answers what the reading answers.
  pub handle_rounds-receive :
      (rounds spare : ℕ) (w : World) (out : Answer × Input)
      → receive rounds w.session.input ≡ ok out
      → Settles spare w (handle_rounds stoul fuel fresh_tid (rounds + spare) w) out
  unfolding receive handle_rounds
  handle_rounds-receive zero spare w out e = absurd cc
  handle_rounds-receive (suc rounds) spare w out e = handle_rounds-step rounds spare w out (
      if_holds (λ r. Settles spare w r out) (length w.session.input.recv_buf == 0)
        (ok (incomplete, w))
        (after_read stoul fuel fresh_tid (handle_rounds stoul fuel fresh_tid (rounds + spare)) w
          (read_chunk_stream w.session.input))
        (λ q.
          subst (Settles spare w (ok (incomplete, w)))
            (out_given (incomplete, w.session.input) out
              (sym (ap (after_chunk (receive rounds)) (read_empty w.session.input q)) ∙ e))
            (spare, omega arith, refl))
        (λ _.
          after_read-Settles rounds spare w (read_chunk_stream w.session.input) out
            (λ v o r. handle_rounds-receive rounds spare v o r) e))
