-- ===== src/Session/Reading.antt =====
-- `on_connect`, `on_read`, `handle` and `on_error` of rtmp_session.cpp.
use drone_server.Chunk.{Answer, complete, incomplete, refused}
use drone_server.Handshake.{Handshake, handle_c0c1, handle_c2}
use drone_server.Handshake.Replies.{send_s0s1s2}
use drone_server.Prelude.{Option, if◌then◌else◌, none, some, ℕ, ◌++◌, ◌∷◌}
use drone_server.Prelude.Bytes.{Bytes}
use drone_server.Prelude.Outcome.{Outcome, ok, ◌>>=◌}
use drone_server.Session.{
  State, close, connect, create_stream, handshake_c2, init, media_transfer, publish_play,
}
use drone_server.Session.Handling.{handle_chunks}
use drone_server.Session.World.{World, is_state, on_close}

abbrev pub with_handshake : World → Handshake → Bytes → World
with_handshake w hs buf = record w {
  session = record w.session { hs = hs; input = record w.session.input { recv_buf = buf } };
}

-- `state = …`
abbrev pub in_state : State → World → World
in_state t w = record w { session = record w.session { state = t } }

-- `send_s0s1s2`, whose answer is not looked at.
abbrev pub reply_sent : World → Option (Bytes × Handshake) → World
reply_sent w none = w
reply_sent w (some (bytes, hs)) = record w {
  session = record w.session { hs = hs; written = bytes ∷ w.session.written };
}

-- `tcp_session::close`: the socket is open until `on_close` has been called.
unfoldable pub close_connection : World → World
close_connection w = if is_state w.session.state close then w else on_close w

abbrev pub closed_after : Answer × World → World
closed_after (refused, w) = close_connection w
closed_after (answer, w) = w

module _ (stoul : Bytes → Option ℕ) (hmac : Bytes → Bytes → Option Bytes)
    (fuel fresh_tid rounds : ℕ) (random : Option Bytes) where
  -- The branch for INIT, after `handle_c0c1`.
  abbrev pub after_c0c1 : World → Answer × Handshake × Bytes → Answer × World
  after_c0c1 w (complete, hs, buf) = (
    complete,
    in_state handshake_c2 (reply_sent (with_handshake w hs buf) (send_s0s1s2 hmac hs random)),
  )
  after_c0c1 w (answer, hs, buf) = (answer, with_handshake w hs buf)

  -- The branch for HANDSHAKE_C2, after `handle_c2`: it answers 1 when it is done, too.
  abbrev pub after_c2 : World → Answer × Handshake × Bytes → Answer × World
  after_c2 w (complete, hs, buf) = (incomplete, in_state connect (with_handshake w hs buf))
  after_c2 w (answer, hs, buf) = (answer, with_handshake w hs buf)

  unfoldable pub handle_in : State → World → Outcome (Answer × World)
  handle_in init w = ok (after_c0c1 w (handle_c0c1 hmac w.session.hs w.session.input.recv_buf))
  handle_in handshake_c2 w = ok (after_c2 w (handle_c2 hmac w.session.hs w.session.input.recv_buf))
  handle_in close w = ok (refused, w)
  handle_in connect w = handle_chunks stoul fuel fresh_tid rounds w
  handle_in create_stream w = handle_chunks stoul fuel fresh_tid rounds w
  handle_in publish_play w = handle_chunks stoul fuel fresh_tid rounds w
  handle_in media_transfer w = handle_chunks stoul fuel fresh_tid rounds w

  unfoldable pub handle : World → Outcome (Answer × World)
  handle w = handle_in w.session.state w

  abbrev pub received : Bytes → World → World
  received bytes w = with_handshake w w.session.hs (w.session.input.recv_buf ++ bytes)

  -- An answer below 0 closes the session.
  unfoldable pub on_read : Bytes → World → Outcome World
  on_read bytes w = handle (received bytes w) >>= λ out. ok (closed_after out)
