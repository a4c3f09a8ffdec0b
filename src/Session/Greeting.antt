-- ===== src/Session/Greeting.antt =====
-- The end of the handshake in `handle` of rtmp_session.cpp.
use drone_server.Chunk.{Answer, complete, incomplete, refused}
use drone_server.Handshake.{Handshake, handle_c2}
use drone_server.Handshake.Answers.{IsC2Answer, IsSha256, handle_c2-IsC2Answer}
use drone_server.Prelude.{Option, arith, drop, length, refl, subst, sym, ℕ, ◌≡◌, ◌≤◌}
use drone_server.Prelude.Bytes.{Bytes}
use drone_server.Prelude.Outcome.{Yields}
use drone_server.Session.{connect, handshake_c2}
use drone_server.Session.Reading.{after_c2, handle, handle_in}
use drone_server.Session.World.{World}

-- The handshake is over, `buf` is left of it, and nothing was sent.
abbrev pub IsGreeted : World → Bytes → Answer × World → Type 0
IsGreeted w buf (answer, w') =
    (answer ≡ incomplete)
    × (w'.session.state ≡ connect)
    × (w'.session.input.recv_buf ≡ buf)
    × (w'.session.written ≡ w.session.written)
    × (w'.actions ≡ w.actions)

module _ (stoul : Bytes → Option ℕ) (hmac : Bytes → Bytes → Option Bytes) (sha : IsSha256 hmac)
    (fuel fresh_tid rounds : ℕ) (random : Option Bytes) where
  after_c2-IsGreeted :
      (w : World) (buf : Bytes) (out : Answer × Handshake × Bytes)
      → 1536 ≤ length buf
      → IsC2Answer buf out
      → IsGreeted w (drop 1536 buf) (after_c2 stoul hmac fuel fresh_tid rounds random w out)
  after_c2-IsGreeted w buf (complete, hs, rest) l h = (refl, refl, h.1, refl, refl)
  after_c2-IsGreeted w buf (incomplete, hs, rest) l h = absurd (omega (arith, l, h.0))
  after_c2-IsGreeted w buf (refused, hs, rest) l h = absurd h

  -- When c2 is all there, `handle` takes it off and answers that it needs more bytes, whatever came with
  -- c2: a command that follows it in the same read stays unread and unanswered, until the client sends
  -- something more. `HMAC` always gives a digest of 32 bytes.
  pub handle-IsGreeted :
      (w : World)
      → w.session.state ≡ handshake_c2
      → 1536 ≤ length w.session.input.recv_buf
      → Yields
          (IsGreeted w (drop 1536 w.session.input.recv_buf))
          (handle stoul hmac fuel fresh_tid rounds random w)
  unfolding handle handle_in
  handle-IsGreeted w e l =
      subst
        (λ s.
          Yields (IsGreeted w (drop 1536 w.session.input.recv_buf))
            (handle_in stoul hmac fuel fresh_tid rounds random s w))
        (sym e)
        (after_c2-IsGreeted w w.session.input.recv_buf
          (handle_c2 hmac w.session.hs w.session.input.recv_buf) l
          (handle_c2-IsC2Answer hmac sha w.session.hs w.session.input.recv_buf))
