-- ===== src/Chunk/Payload.antt =====
-- One round of read_chunk_stream of rtmp_session.cpp on a whole chunk.
use drone_server.Chunk.{
  ChunkStream, complete, header, payload, read_header, read_payload, requested, take_payload,
}
use drone_server.Chunk.Receiving.{
  Input, read_basic_header, read_chunk, read_chunk_stream, stream_of, update,
}
use drone_server.Chunk.Writing.{basic_header}
use drone_server.Prelude.{
  Option, arith, drop-append, false, if◌then◌else◌, length, length-append, some, take-append, true,
  ℕ, ◌%◌, ◌++◌, ◌-◌, ◌/◌, ◌<◌, ◌==◌, ◌∷◌, ◌≡◌,
}
use drone_server.Prelude.Bytes.{Bytes}

-- The stream after the payload `xs` of a chunk.
abbrev pub paid : ChunkStream → Bytes → ChunkStream
paid s xs = record s {
  content = s.content ++ xs;
  rem = s.rem - length xs;
  ready = if s.rem - length xs == 0 then true else s.ready;
  phase = header;
}

take_payload-paid :
    (s : ChunkStream) (xs rest : Bytes)
    → take_payload (length xs) s (xs ++ rest) ≡ (complete, paid s xs, rest)
unfolding take_payload
take_payload-paid s xs rest =
    rw (take-append xs rest, drop-append xs rest) (ground (arith, length-append xs rest))

pub read_payload-paid :
    (max_chunk_size : ℕ) (s : ChunkStream) (xs rest : Bytes)
    → s.phase ≡ payload
    → length xs ≡ requested max_chunk_size s.rem
    → read_payload max_chunk_size s (xs ++ rest) ≡ (complete, paid s xs, rest)
unfolding read_payload
read_payload-paid max_chunk_size s xs rest at_payload e =
    rw (at_payload, read_payload) (rw (← e) (take_payload-paid s xs rest))

-- The input between two chunks.
abbrev pub waiting : ℕ → ℕ → ℕ → (ℕ → Option ChunkStream) → ℕ → ℕ → Bytes → Input
waiting max_chunk_size fresh_fmt fresh_rem cs fmt csid buf = record {
  recv_buf = buf;
  max_chunk_size = max_chunk_size;
  header_read = false;
  csid = csid;
  fmt = fmt;
  cs_in = cs;
  fresh_fmt = fresh_fmt;
  fresh_rem = fresh_rem;
}

pub cons-not_empty : (x : ℕ) (xs : Bytes) → (length (x ∷ xs) == 0) ≡ false
cons-not_empty x xs = ground arith

basic_header-fmt : (fmt csid : ℕ) → fmt < 4 → basic_header fmt csid / 64 % 4 ≡ fmt
basic_header-fmt fmt csid h = omega arith

basic_header-csid : (fmt csid : ℕ) → csid < 64 → basic_header fmt csid % 64 ≡ csid
basic_header-csid fmt csid h = omega arith

module _ (max_chunk_size fresh_fmt fresh_rem : ℕ) (cs : ℕ → Option ChunkStream)
    (fmt₀ csid₀ fmt csid : ℕ) (s s' : ChunkStream) (buf xs rest : Bytes) where
  read_basic_header-waiting :
      fmt < 4
      → csid < 64
      → read_basic_header
          (waiting max_chunk_size fresh_fmt fresh_rem cs fmt₀ csid₀ (basic_header fmt csid ∷ buf))
        ≡ record (waiting max_chunk_size fresh_fmt fresh_rem cs fmt csid buf) { header_read = true }
  unfolding read_basic_header
  read_basic_header-waiting hf hc = rw (basic_header-fmt fmt csid hf, basic_header-csid fmt csid hc)

  -- A whole chunk is read: the payload goes to the stream of its id, and the next chunk is awaited.
  pub read_chunk_stream-chunk :
      fmt < 4
      → csid < 64
      → cs csid ≡ some s
      → read_header fmt s buf ≡ (complete, s', xs ++ rest)
      → s'.phase ≡ payload
      → length xs ≡ requested max_chunk_size s'.rem
      → read_chunk_stream
          (waiting max_chunk_size fresh_fmt fresh_rem cs fmt₀ csid₀ (basic_header fmt csid ∷ buf))
        ≡ (
          complete,
          waiting max_chunk_size fresh_fmt fresh_rem
              (update cs csid (some (paid s' xs)))
              fmt
              csid
              rest,
        )
  unfolding read_chunk_stream read_chunk stream_of
  read_chunk_stream-chunk hf hc known head at_payload e = rw (read_basic_header-waiting hf hc) (
      rw (known, stream_of)
        (rw head (rw (read_payload-paid max_chunk_size s' xs rest at_payload e) (ground arith))))
