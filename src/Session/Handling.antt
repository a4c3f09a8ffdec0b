-- ===== src/Session/Handling.antt =====
-- `handle` of rtmp_session.cpp once the handshake is over, and `handle_chunk_stream`.
use drone_server.Buffer.{size}
use drone_server.Chunk.{Answer, complete, incomplete, refused}
use drone_server.Chunk.Receiving.{Input, has_message, read_chunk_stream}
use drone_server.Prelude.{
  Option, if◌then◌else◌, length, ltb, none, some, suc, zero, ℕ, ◌%◌, ◌&&◌, ◌+◌, ◌==◌, ◌^◌, ◌||◌,
}
use drone_server.Prelude.Bytes.{Bytes}
use drone_server.Prelude.Outcome.{Outcome, fault, ok, out_of_fuel, ◌>>=◌}
use drone_server.Session.{Session, current}
use drone_server.Session.Commands.{handle_command_message}
use drone_server.Session.Control.{handle_control_message}
use drone_server.Session.Senders.{send_ack}
use drone_server.Session.World.{World, handle_media_message, with_session}

-- `ack_recv += size; ack_recv_total += size; if (ack_recv > window_size) { … }`
abbrev pub counted : ℕ → Session → Session
counted size s = record s {
  ack_recv = (s.ack_recv + size) % 2 ^ 32;
  ack_recv_total = (s.ack_recv_total + size) % 2 ^ 32;
}

abbrev pub acknowledge : ℕ → Session → Outcome Session
acknowledge fuel s =
    if ltb s.window_size s.ack_recv
    then (send_ack fuel s >>= λ s'. ok (record s' { ack_recv = 0 }))
    else ok s

unfoldable pub count_message : ℕ → Session → Outcome Session
count_message fuel s = elim (current s) [
  | none ↦ fault
  | some c ↦ acknowledge fuel (counted (length c.content) s)
]

abbrev pub with_input : World → Input → World
with_input w i = record w { session = record w.session { input = i } }

abbrev pub answer_complete : Outcome World → Outcome (Answer × World)
answer_complete r = r >>= λ w. ok (complete, w)

module _ (stoul : Bytes → Option ℕ) (fuel fresh_tid : ℕ) where
  -- The dispatch on the type; a type that is not handled is answered with -1.
  unfoldable pub dispatch : ℕ → ℕ → World → Outcome (Answer × World)
  dispatch type stream_id w =
      if ltb type 7 && (stream_id == 0)
      then answer_complete (with_session w (handle_control_message w.session))
      else if (type == 8) || (type == 9) || (type == 18)
      then handle_media_message stoul w
      else if type == 20
      then answer_complete (handle_command_message stoul fuel fresh_tid w)
      else ok (refused, w)

  unfoldable pub handle_chunk_stream : World → Outcome (Answer × World)
  handle_chunk_stream w = elim (current w.session) [
    | none ↦ fault
    | some c ↦ dispatch c.type c.stream_id w
  ]

  -- A whole message: it is counted and handled.
  unfoldable pub handle_message : World → Outcome (Answer × World)
  handle_message w = with_session w (count_message fuel w.session) >>= λ w'. handle_chunk_stream w'

  -- The loop goes on after an answer of 0 only.
  abbrev pub go_on : (World → Outcome (Answer × World)) → Answer × World → Outcome (Answer × World)
  go_on again (complete, w) = again w
  go_on again (answer, w) = ok (answer, w)

  -- What a round does after `read_chunk_stream`; `again` makes the next.
  abbrev pub after_read :
      (World → Outcome (Answer × World)) → World → Answer × Input → Outcome (Answer × World)
  after_read again w (complete, i) =
      if has_message i
      then (handle_message (with_input w i) >>= go_on again)
      else if length i.recv_buf == 0
      then ok (incomplete, with_input w i)
      else again (with_input w i)
  after_read again w (answer, i) = ok (answer, with_input w i)

  -- `while (recv_buf.size() > 0)` after the first round, on fuel of its own: when the bytes are used
  -- up the answer is 1.
  unfoldable pub handle_rounds : ℕ → World → Outcome (Answer × World)
  handle_rounds zero w = out_of_fuel
  handle_rounds (suc rounds) w =
      if length w.session.input.recv_buf == 0
      then ok (incomplete, w)
      else after_read (handle_rounds rounds) w (read_chunk_stream w.session.input)

  -- The branch of `handle` for the states from CONNECT to MEDIA_TRANSFER: with no bytes at all it
  -- answers -1.
  unfoldable pub handle_chunks : ℕ → World → Outcome (Answer × World)
  handle_chunks rounds w =
      if length w.session.input.recv_buf == 0 then ok (refused, w) else handle_rounds rounds w
