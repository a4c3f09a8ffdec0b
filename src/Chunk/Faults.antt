-- ===== src/Chunk/Faults.antt =====
-- rtmp_chunk_stream.cpp: a chunk size of zero in `write_chunk`, and a chunk header that arrives in two
-- parts.
use drone_server.Amf0.Encoding.{extended}
use drone_server.Chunk.{
  ChunkStream, complete, header, incomplete, payload, popped32, read_f3, read_header,
  read_header_of,
}
use drone_server.Chunk.Writing.{Message, send_chunks, send_rest, write_chunk}
use drone_server.Prelude.{
  Bool, [], arith, drop, false, length, ltb, refl, suc, true, zero, ℕ, ◌++◌, ◌<◌, ◌∷◌, ◌≡◌, ◌≤◌,
}
use drone_server.Prelude.Bytes.{Bytes}
use drone_server.Prelude.Outcome.{out_of_fuel}

zero_size : (n : ℕ) → ltb 0 (suc n) ≡ true
zero_size n = ground arith

send_rest-zero_size : (f csid x : ℕ) (xs : Bytes) → send_rest f 0 csid (x ∷ xs) ≡ out_of_fuel
unfolding send_rest
send_rest-zero_size zero csid x xs = refl
send_rest-zero_size (suc f) csid x xs =
    rw (zero_size (length xs)) (rw (send_rest-zero_size f csid x xs) refl)

-- With a chunk size of zero the loop of `write_chunk` never ends on a message that is not empty: no
-- number of rounds is enough.
pub write_chunk-zero_size :
    (f : ℕ) (m : Message) (msg : Bytes) (force_f0 : Bool) (s : ChunkStream)
    → 0 < length msg
    → write_chunk f 0 m msg force_f0 s ≡ out_of_fuel
unfolding write_chunk send_chunks
write_chunk-zero_size f m [] force_f0 s l = absurd (omega arith)
write_chunk-zero_size f m (x ∷ xs) force_f0 s l =
    rw (send_rest-zero_size f s.csid x xs, zero_size (length xs)) refl

-- On a stream that awaits a header, with nothing left of a message, whose last header was of format 0 and
-- had an extended time, let a header of format 3 be read while fewer than its four bytes of extended time
-- are there. Then it waits, and when it is read again with four bytes or more they stay in front of the
-- payload and the time stays as it was, where the same bytes in one piece give the time and are taken off.
pub read_header-retry :
    (s : ChunkStream) (a b : Bytes)
    → s.phase ≡ header
    → s.rem ≡ 0
    → s.fmt ≡ 0
    → s.ext_ts ≡ true
    → length a < 4
    → 4 ≤ length (a ++ b)
    → (s' : ChunkStream) × (read_header 3 s a ≡ (incomplete, s', a))
      × (read_header 3 s' (a ++ b) ≡ (
        complete,
        record s { fmt = 3; phase = payload; content = []; rem = s.len; ready = false },
        a ++ b,
      ))
      × (read_header 3 s (a ++ b) ≡ (
        complete,
        record s {
          time = popped32 (a ++ b);
          fmt = 3;
          phase = payload;
          content = [];
          rem = s.len;
          ready = false;
        },
        drop 4 (a ++ b),
      ))
unfolding read_header read_header_of read_f3
read_header-retry s a b at_header nothing f0 extended short enough = (
  record s { fmt = 3 },
  rw (at_header, read_header) (ground arith),
  rw (at_header, read_header) (ground arith),
  rw (at_header, read_header) (ground arith),
)
