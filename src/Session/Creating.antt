-- ===== src/Session/Creating.antt =====
-- The command createStream of rtmp_session_command_message.cpp.
use drone_server.Amf0.{Amf0Data, marker_number, marker_string, new_null, new_number, new_string}
use drone_server.Amf0.Decoding.{read_amf0_string-emit, read_number-over}
use drone_server.Amf0.Standard.{eight_bytes, field8}
use drone_server.Amf0.Writing.{write}
use drone_server.Buffer.{
  SimpleBuffer, empty_buffer, write_1byte, write_2bytes, write_8bytes, write_string,
}
use drone_server.Buffer.Cursor.{cursor}
use drone_server.Chunk.{ChunkStream, clear_stream}
use drone_server.Prelude.{
  Option, [], arith, false, length, refl, some, subst, sym, ℕ, ◌++◌, ◌<◌, ◌^◌, ◌∷◌, ◌≡◌, ◌≤◌,
}
use drone_server.Prelude.Bytes.{Bytes, big_endian, bytes_eq}
use drone_server.Prelude.Outcome.{Yields, Yields-bind, ok}
use drone_server.Session.{Session, create_stream, current, publish_play, set_stream, write_message}
use drone_server.Session.Commands.{
  handle_command_message, next_number, next_string, on_create_stream, parse_command, run_command,
}
use drone_server.Session.Delivers.{write_message-Yields}
use drone_server.Session.Publishing.{Yields-given, untimed}
use drone_server.Session.Replies.{
  double_30, send_stream_result, text_create_stream, text_result, write_values,
}
use drone_server.Session.Sends.{Sends}
use drone_server.Session.Settings.{clear_current-present}
use drone_server.Session.World.{World, with_session}

-- AMF0 of "createStream" and a double of 8 bytes, with what the client adds.
abbrev pub create_stream_command : Bytes → Bytes → Bytes
create_stream_command double rest = 2 ∷ 0 ∷ 12 ∷ (text_create_stream ++ 0 ∷ (double ++ rest))

-- AMF0 of "_result", a double, null and 30.0.
abbrev pub create_stream_answer : Bytes → Bytes
create_stream_answer double =
    2 ∷ 0 ∷ 7 ∷ (text_result ++ 0 ∷ (double ++ 5 ∷ 0 ∷ 0x40 ∷ 0x3e ∷ 0 ∷ 0 ∷ 0 ∷ 0 ∷ 0 ∷ 0 ∷ []))

-- The session is sent the answer on chunk stream 3, and awaits publish or play.
abbrev pub AnswersCreateStream : ℕ → Bytes → Session → Session → Type 0
AnswersCreateStream fuel double s s' =
    let answer = create_stream_answer double in
    (told : Session) × (write_message fuel 3 (untimed 20 answer) answer false s ≡ ok told)
    × (s' ≡ record told { state = publish_play })

create_stream_name :
    (r : Bytes)
    → next_string (cursor [] (2 ∷ 0 ∷ 12 ∷ (text_create_stream ++ r)))
      ≡ ok (text_create_stream, cursor (2 ∷ 0 ∷ 12 ∷ text_create_stream) r)
unfolding next_string big_endian
create_stream_name r =
    rw (read_amf0_string-emit marker_string text_create_stream [] r (omega arith)) refl

command_number :
    (fresh_tid v : ℕ) (p r : Bytes)
    → v < 2 ^ 64
    → next_number fresh_tid (cursor p (0 ∷ (big_endian 8 v ++ r)))
      ≡ ok (new_number v, cursor (p ++ 0 ∷ big_endian 8 v) r)
unfolding next_number
command_number fresh_tid v p r h = rw (read_number-over marker_number fresh_tid v p r h) refl

answer_written :
    (v : ℕ)
    → write_values
        (new_string text_result ∷ new_number v ∷ new_null ∷ new_number double_30 ∷ [])
        empty_buffer
      ≡ ok (create_stream_answer (big_endian 8 v))
unfolding write_values write write_1byte write_2bytes write_string write_8bytes big_endian
answer_written v = refl

length-answer : (v : ℕ) → length (create_stream_answer (big_endian 8 v)) < 40
unfolding big_endian
length-answer v = omega arith

on_create_stream-AnswersCreateStream :
    (fuel v : ℕ) (s : Session)
    → 0 < s.input.max_chunk_size
    → 40 ≤ fuel
    → Yields (AnswersCreateStream fuel (big_endian 8 v) s) (on_create_stream fuel (new_number v) s)
unfolding on_create_stream send_stream_result
on_create_stream-AnswersCreateStream fuel v s h l =
    let answer = create_stream_answer (big_endian 8 v) in
    rw (answer_written v) (
      Yields-given (Sends s) _ (write_message fuel 3 (untimed 20 answer) answer false s) _
        (write_message-Yields fuel 3 _ answer false s h (omega (arith, l, length-answer v)))
        (λ told e q. (told, e, refl)))

module _ (stoul : Bytes → Option ℕ) where
  parse_command-create_stream :
      (fresh_tid v : ℕ) (rest : Bytes)
      → v < 2 ^ 64
      → (b : SimpleBuffer) × (parse_command stoul fresh_tid
            (create_stream_command (big_endian 8 v) rest)
          ≡ ok ((text_create_stream, new_number v), b))
  unfolding parse_command next_string cursor
  parse_command-create_stream fresh_tid v rest h =
      let p = 2 ∷ 0 ∷ 12 ∷ text_create_stream in
      (
        cursor (p ++ 0 ∷ big_endian 8 v) rest,
        rw (create_stream_name (0 ∷ (big_endian 8 v ++ rest)))
            (rw (command_number fresh_tid v p rest h) refl),
      )

  -- The chain of tests takes the command to its branch.
  run_command-create_stream :
      (fuel fresh_tid : ℕ) (tid : Amf0Data) (w : World) (b : SimpleBuffer)
      → w.session.state ≡ create_stream
      → run_command stoul fuel fresh_tid text_create_stream tid w b
        ≡ with_session w (on_create_stream fuel tid w.session)
  unfolding run_command bytes_eq
  run_command-create_stream fuel fresh_tid tid w b e = rw e refl

  answered-create_stream :
      (fuel fresh_tid v : ℕ) (w : World) (c : ChunkStream) (rest : Bytes)
      → current w.session ≡ some c
      → w.session.state ≡ create_stream
      → 0 < w.session.input.max_chunk_size
      → 40 ≤ fuel
      → v < 2 ^ 64
      → c.content ≡ create_stream_command (big_endian 8 v) rest
      → Yields
          (λ w'.
            (w'.streams ≡ w.streams)
            × (w'.actions ≡ w.actions)
            × AnswersCreateStream fuel
                (big_endian 8 v)
                (set_stream w.session (some (clear_stream c)))
                w'.session)
          (handle_command_message stoul fuel fresh_tid w)
  unfolding handle_command_message
  answered-create_stream fuel fresh_tid v w c rest e state h l small content =
      let s₀ = set_stream w.session (some (clear_stream c)) in
      let w₀ = record w { session = s₀ } in
      let (b, known) = parse_command-create_stream fresh_tid v rest small in
      let parsed =
        subst
          (λ bytes.
            parse_command stoul fresh_tid bytes ≡ ok ((text_create_stream, new_number v), b))
          (sym content) known in
      rw (e, handle_command_message)
        (rw (clear_current-present w.session c e) (
          rw parsed (
            rw (run_command-create_stream fuel fresh_tid (new_number v) w₀ b state) (
              Yields-bind (AnswersCreateStream fuel (big_endian 8 v) s₀) _
                (on_create_stream fuel (new_number v) s₀) _
                (on_create_stream-AnswersCreateStream fuel v s₀ h l) (λ s' t. (refl, refl, t))))))

  -- A session that awaits createStream and gets that command, with a number of 64 bits and whatever
  -- comes after it, on a chunk stream that it knows, clears that chunk stream, is sent _result, with the same
  -- number, null and the stream number 30, and then awaits publish or play; the map of streams is as it was
  -- and nobody else is sent anything. The chunk size is not zero, and the fuel is 40 or more.
  pub handle_command_message-create_stream :
      (fuel fresh_tid v : ℕ) (w : World) (c : ChunkStream) (rest : Bytes)
      → current w.session ≡ some c
      → w.session.state ≡ create_stream
      → 0 < w.session.input.max_chunk_size
      → 40 ≤ fuel
      → v < 2 ^ 64
      → c.content ≡ create_stream_command (eight_bytes v) rest
      → Yields
          (λ w'.
            (w'.streams ≡ w.streams)
            × (w'.actions ≡ w.actions)
            × AnswersCreateStream fuel
                (eight_bytes v)
                (set_stream w.session (some (clear_stream c)))
                w'.session)
          (handle_command_message stoul fuel fresh_tid w)
  handle_command_message-create_stream fuel fresh_tid v w c rest e state h l small =
      subst
        (λ double.
          c.content ≡ create_stream_command double rest
          → Yields
              (λ w'.
                (w'.streams ≡ w.streams)
                × (w'.actions ≡ w.actions)
                × AnswersCreateStream fuel double (set_stream w.session (some (clear_stream c)))
                    w'.session)
              (handle_command_message stoul fuel fresh_tid w))
        (field8 v small) (answered-create_stream fuel fresh_tid v w c rest e state h l small)
