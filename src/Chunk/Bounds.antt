-- ===== src/Chunk/Bounds.antt =====
-- How much of the input a round of read_chunk_stream of rtmp_session.cpp takes.
use drone_server.Chunk.{
  Answer, ChunkStream, Phase, complete, header, incomplete, note_format, payload, read_f0, read_f1,
  read_f2, read_f3, read_header, read_header_of, read_payload, refused, requested, take_payload,
  with_time,
}
use drone_server.Chunk.Receiving.{
  Input, after_chunk, has_message, read_basic_header, read_chunk, read_chunk_stream, receive,
  stream_of, then_header, then_payload,
}
use drone_server.Prelude.{
  arith, drop, false, if◌then◌else◌, inl, inr, length, length-drop, refl, suc, true, zero, ℕ, ◌+◌,
  ◌<◌, ◌==◌, ◌≡◌, ◌≤◌, ◌⊎◌,
}
use drone_server.Prelude.Bytes.{Bytes}
use drone_server.Prelude.Outcome.{Ensures, Ensures-if, Outcome, ok}

-- A step on a stream that leaves at most the bytes it got.
abbrev pub Shrinks : Bytes → Answer × ChunkStream × Bytes → Type 0
Shrinks buf out = length out.2 ≤ length buf

with_time-Shrinks :
    (k : ℕ) (s : ChunkStream) (buf : Bytes) (ready_to : ChunkStream → ℕ → Bytes → ChunkStream)
    → Shrinks buf (with_time k s buf ready_to)
with_time-Shrinks k s buf ready_to = ground (arith, length-drop k buf, length-drop 4 (drop k buf))

read_f3-Shrinks : (s : ChunkStream) (buf : Bytes) → Shrinks buf (read_f3 s buf)
unfolding read_f3
read_f3-Shrinks s buf = ground (arith, length-drop 4 buf)

read_header_of-Shrinks :
    (fmt : ℕ) (s : ChunkStream) (buf : Bytes) → Shrinks buf (read_header_of fmt s buf)
unfolding read_header_of read_f0 read_f1 read_f2
read_header_of-Shrinks fmt s buf = ground (
  arith,
  with_time-Shrinks 11 s buf _,
  with_time-Shrinks 7 s buf _,
  with_time-Shrinks 3 s buf _,
  read_f3-Shrinks s buf,
)

note_format-Shrinks :
    (fmt : ℕ) (buf : Bytes) (out : Answer × ChunkStream × Bytes)
    → Shrinks buf out
    → Shrinks buf (note_format fmt out)
note_format-Shrinks fmt buf (complete, s, rest) h = h
note_format-Shrinks fmt buf (incomplete, s, rest) h = h
note_format-Shrinks fmt buf (refused, s, rest) h = h

Phase-cases : (p : Phase) → (p ≡ header) ⊎ (p ≡ payload)
Phase-cases header = inl refl
Phase-cases payload = inr refl

pub read_header-Shrinks :
    (fmt : ℕ) (s : ChunkStream) (buf : Bytes) → Shrinks buf (read_header fmt s buf)
unfolding read_header
read_header-Shrinks fmt s buf = elim (Phase-cases s.phase) [
  | inl e ↦ rw (e, read_header) (note_format-Shrinks fmt buf _ (read_header_of-Shrinks fmt s buf))
  | inr e ↦ rw (e, read_header) (omega arith)
]

pub read_payload-Shrinks :
    (max_chunk_size : ℕ) (s : ChunkStream) (buf : Bytes)
    → Shrinks buf (read_payload max_chunk_size s buf)
unfolding read_payload take_payload
read_payload-Shrinks max_chunk_size s buf = elim (Phase-cases s.phase) [
  | inl e ↦ rw (e, read_payload) (omega arith)
  | inr e ↦ rw (e, read_payload) (ground (arith, length-drop (requested max_chunk_size s.rem) buf))
]

-- The input after a chunk: the next chunk is awaited, and no byte was added.
abbrev After : ℕ → Answer × Input → Type 0
After n out = out.0 ≡ complete → (length out.1.recv_buf ≤ n) × (out.1.header_read ≡ false)

then_payload-After :
    (n : ℕ) (i : Input) (out : Answer × ChunkStream × Bytes)
    → length out.2 ≤ n
    → After n (then_payload i out)
then_payload-After n i (complete, s, rest) h e = (h, refl)
then_payload-After n i (incomplete, s, rest) h e = absurd cc
then_payload-After n i (refused, s, rest) h e = absurd cc

then_header-After :
    (n : ℕ) (i : Input) (out : Answer × ChunkStream × Bytes)
    → length out.2 ≤ n
    → After n (then_header i out)
then_header-After n i (complete, s, rest) h e =
    then_payload-After n i (read_payload i.max_chunk_size s rest)
      (omega (arith, h, read_payload-Shrinks i.max_chunk_size s rest)) e
then_header-After n i (incomplete, s, rest) h e = absurd cc
then_header-After n i (refused, s, rest) h e = absurd cc

read_chunk-After : (i : Input) → After (length i.recv_buf) (read_chunk i)
unfolding read_chunk
read_chunk-After i =
    then_header-After (length i.recv_buf) i (read_header i.fmt (stream_of i) i.recv_buf)
      (read_header-Shrinks i.fmt (stream_of i) i.recv_buf)

-- The rounds that the loop can still make: one for each byte, and one for a header that is read.
abbrev pub rounds_left : Input → ℕ
rounds_left i = length i.recv_buf + (if i.header_read then 1 else 0)

read_basic_header-rounds :
    (i : Input)
    → 0 < length i.recv_buf
    → suc (length (read_basic_header i).recv_buf) ≤ rounds_left i
unfolding read_basic_header
read_basic_header-rounds i l = ground (arith, length-drop 1 i.recv_buf)

-- A round that reads a chunk takes a byte, or finishes a chunk whose header stood read before.
pub read_chunk_stream-rounds :
    (i : Input)
    → (read_chunk_stream i).0 ≡ complete
    → rounds_left (read_chunk_stream i).1 < rounds_left i
unfolding read_chunk_stream
read_chunk_stream-rounds i =
    ground (arith, read_chunk-After (read_basic_header i), read_basic_header-rounds i)

-- What the loop ends with: if it says so, a whole message.
abbrev pub HasMessage : Answer × Input → Type 0
HasMessage (complete, i) = has_message i ≡ true
HasMessage (answer, i) = Unit {0}

after_chunk-HasMessage :
    (again : Input → Outcome (Answer × Input)) (out : Answer × Input)
    → (out.0 ≡ complete → Ensures HasMessage (again out.1))
    → Ensures HasMessage (after_chunk again out)
after_chunk-HasMessage again (complete, i) h =
    Ensures-if HasMessage (has_message i) (ok (complete, i))
      (if length i.recv_buf == 0 then ok (incomplete, i) else again i) (λ e. e)
      (λ _.
        Ensures-if HasMessage (length i.recv_buf == 0) (ok (incomplete, i)) (again i) (λ _. tt)
          (λ _. h refl))
after_chunk-HasMessage again (incomplete, i) h = tt
after_chunk-HasMessage again (refused, i) h = tt

-- With fuel for each byte of the input and one more if a header stands read, the loop ends, and where
-- it says that it has a message, the stream of the current chunk is ready.
pub receive_total :
    (fuel : ℕ) (i : Input) → rounds_left i < fuel → Ensures HasMessage (receive fuel i)
unfolding receive
receive_total zero i lt = absurd (omega arith)
receive_total (suc fuel) i lt = after_chunk-HasMessage (receive fuel) (read_chunk_stream i) λ e.
    receive_total fuel (read_chunk_stream i).1 (omega (arith, lt, read_chunk_stream-rounds i e))
