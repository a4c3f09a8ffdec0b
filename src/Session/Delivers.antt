-- ===== src/Session/Delivers.antt =====
-- That sending of rtmp_session.cpp ends, with a chunk size that is not zero.
use drone_server.Amf0.{Amf0Data}
use drone_server.Buffer.{empty_buffer, size}
use drone_server.Chunk.{ChunkStream, requested}
use drone_server.Chunk.Writing.{
  Message, format_for, header_bytes, send_chunks, send_rest, write_chunk,
}
use drone_server.Prelude.{
  Bool, List, [], arith, drop, false, if_holds, length, length-drop, ltb, suc, zero, ℕ, ◌++◌, ◌<◌,
  ◌∷◌, ◌≡◌, ◌≤◌,
}
use drone_server.Prelude.Bytes.{Bytes}
use drone_server.Prelude.Outcome.{Yields, Yields-Permits, Yields-bind, ok}
use drone_server.Session.{Session, stream_out, write_message}
use drone_server.Session.Replies.{send_values, write_values}
use drone_server.Session.Sends.{Sends, write_message-Sends}

requested_pos : (size n : ℕ) → 0 < size → 0 < requested size (suc n)
requested_pos size n h = ground (arith, h)

requested_some :
    (size : ℕ) (msg : Bytes) (x : ℕ)
    → 0 < size
    → length (drop (requested size (suc (length msg))) (x ∷ msg)) ≤ length msg
requested_some size msg x h = omega (
  arith,
  length-drop (requested size (suc (length msg))) (x ∷ msg),
  h,
  requested_pos size (length msg) h,
)

send_rest-total :
    (fuel size csid : ℕ) (msg : Bytes)
    → 0 < size
    → length msg < fuel
    → Yields (λ sent. Unit {0}) (send_rest fuel size csid msg)
unfolding send_rest
send_rest-total zero size csid msg h l = absurd (omega (arith, l))
send_rest-total (suc fuel) size csid [] h l = tt
send_rest-total (suc fuel) size csid (x ∷ msg) h l =
    Yields-bind (λ sent. Unit {0}) _
      (send_rest fuel size csid (drop (requested size (suc (length msg))) (x ∷ msg))) _
      (send_rest-total fuel size csid _ h (omega (arith, l, requested_some size msg x h)))
      (λ sent u. tt)

send_chunks-total :
    (fuel size csid : ℕ) (head msg : Bytes)
    → 0 < size
    → length msg < fuel
    → Yields (λ sent. Unit {0}) (send_chunks fuel size csid head msg)
unfolding send_chunks
send_chunks-total fuel size csid head msg h l =
    if_holds (Yields (λ sent. Unit {0})) (ltb size (length msg)) _ _
      (λ _.
        Yields-bind (λ sent. Unit {0}) _ (send_rest fuel size csid (drop size msg)) _
          (send_rest-total fuel size csid (drop size msg) h
            (omega (arith, l, length-drop size msg)))
          (λ sent u. tt))
      (λ _. tt)

write_chunk-total :
    (fuel size : ℕ) (m : Message) (msg : Bytes) (force_f0 : Bool) (c : ChunkStream)
    → 0 < size
    → length msg < fuel
    → Yields (λ r. Unit {0}) (write_chunk fuel size m msg force_f0 c)
unfolding write_chunk
write_chunk-total fuel size m msg force_f0 c h l =
    Yields-bind (λ sent. Unit {0}) _
      (send_chunks fuel size c.csid (c.content ++ header_bytes (format_for c m force_f0) c.csid m)
        msg)
      _ (send_chunks-total fuel size c.csid _ msg h l) (λ sent u. tt)

write_message-total :
    (fuel csid : ℕ) (m : Message) (msg : Bytes) (force_f0 : Bool) (s : Session)
    → 0 < s.input.max_chunk_size
    → length msg < fuel
    → Yields (λ s'. Unit {0}) (write_message fuel csid m msg force_f0 s)
unfolding write_message
write_message-total fuel csid m msg force_f0 s h l =
    Yields-bind (λ r. Unit {0}) (λ s'. Unit {0})
      (write_chunk fuel s.input.max_chunk_size m msg force_f0 (stream_out s csid)) _
      (write_chunk-total fuel s.input.max_chunk_size m msg force_f0 (stream_out s csid) h l)
      (λ r u. tt)

-- A message shorter than the fuel is sent, whatever its kind.
pub write_message-Yields :
    (fuel csid : ℕ) (m : Message) (msg : Bytes) (force_f0 : Bool) (s : Session)
    → 0 < s.input.max_chunk_size
    → length msg < fuel
    → Yields (Sends s) (write_message fuel csid m msg force_f0 s)
write_message-Yields fuel csid m msg force_f0 s h l =
    Yields-Permits (Sends s) _ (write_message-total fuel csid m msg force_f0 s h l)
      (write_message-Sends fuel csid m msg force_f0 s)

pub send_values-Yields :
    (fuel csid : ℕ) (ds : List Amf0Data) (msg : Bytes) (s : Session)
    → write_values ds empty_buffer ≡ ok msg
    → 0 < s.input.max_chunk_size
    → length msg < fuel
    → Yields (Sends s) (send_values fuel csid ds s)
send_values-Yields fuel csid ds msg s e h l =
    rw e (write_message-Yields fuel csid _ msg false s h l)
