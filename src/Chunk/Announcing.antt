-- ===== src/Chunk/Announcing.antt =====
-- The headers that write_chunk of rtmp_chunk_stream.cpp may choose, as the reader gets them.
use drone_server.Chunk.{ChunkStream, read_header_of}
use drone_server.Chunk.Headers.{
  Announces, FitsWire, IsChosen, IsIdle, header_tail, read_f0-header, read_f1-header,
  read_f2-header, read_f3-header,
}
use drone_server.Chunk.Writing.{Message, header_bytes, little_endian32}
use drone_server.Prelude.{[], append_assoc, arith, inl, inr, refl, ℕ, ◌%◌, ◌++◌, ◌+◌, ◌^◌, ◌∷◌, ◌≡◌}
use drone_server.Prelude.Bytes.{Bytes, big_endian}

announce_f0 :
    (r : ChunkStream) (m : Message) (rest : Bytes)
    → IsIdle r
    → FitsWire m
    → Announces 0 m rest (read_header_of 0 r (header_tail 0 m ++ rest))
unfolding read_header_of header_bytes
announce_f0 r m rest i w = (
  record r {
    time = m.time % 2 ^ 24;
    dtime = 0;
    len = m.size;
    type = m.type_id;
    stream_id = m.stream_id;
    rem = m.size;
  },
  rw
      (
        append_assoc (big_endian 3 m.time)
            (big_endian 3 m.size ++ m.type_id ∷ little_endian32 m.stream_id) rest,
        append_assoc (big_endian 3 m.size) (m.type_id ∷ little_endian32 m.stream_id) rest,
      )
      (read_f0-header r m rest i w),
  ground arith,
  λ _. refl,
)

announce_f1 :
    (r : ChunkStream) (m : Message) (rest : Bytes)
    → IsIdle r
    → FitsWire m
    → r.stream_id ≡ m.stream_id
    → Announces 1 m rest (read_header_of 1 r (header_tail 1 m ++ rest))
unfolding read_header_of header_bytes
announce_f1 r m rest i w d = (
  record r {
    time = (r.time + m.dtime % 2 ^ 24) % 2 ^ 32;
    dtime = m.dtime % 2 ^ 24;
    len = m.size;
    type = m.type_id;
    rem = m.size;
  },
  rw
      (
        append_assoc (big_endian 3 m.dtime) (big_endian 3 m.size ++ m.type_id ∷ []) rest,
        append_assoc (big_endian 3 m.size) (m.type_id ∷ []) rest,
      )
      (read_f1-header r m rest w),
  ground arith,
  λ e. absurd (omega arith),
)

announce_f2 :
    (r : ChunkStream) (m : Message) (rest : Bytes)
    → IsIdle r
    → FitsWire m
    → r.len ≡ m.size
    → r.type ≡ m.type_id
    → r.stream_id ≡ m.stream_id
    → Announces 2 m rest (read_header_of 2 r (header_tail 2 m ++ rest))
unfolding read_header_of header_bytes
announce_f2 r m rest i w l t d = (
  record r { time = (r.time + m.dtime % 2 ^ 24) % 2 ^ 32; dtime = m.dtime % 2 ^ 24; rem = r.len },
  read_f2-header r m rest w,
  ground arith,
  λ e. absurd (omega arith),
)

announce_f3 :
    (r : ChunkStream) (m : Message) (rest : Bytes)
    → IsIdle r
    → r.len ≡ m.size
    → r.type ≡ m.type_id
    → r.stream_id ≡ m.stream_id
    → Announces 3 m rest (read_header_of 3 r (header_tail 3 m ++ rest))
unfolding read_header_of header_bytes
announce_f3 r m rest i l t d =
    let (s', e, a) = read_f3-header r m rest i l t d in (s', e, a, λ e. absurd (omega arith))

-- Whatever format the writer chooses, an idle reader that agrees with it reads the header.
pub header-Announces :
    (fmt : ℕ) (r : ChunkStream) (m : Message) (rest : Bytes)
    → IsIdle r
    → FitsWire m
    → IsChosen fmt m r
    → Announces fmt m rest (read_header_of fmt r (header_tail fmt m ++ rest))
header-Announces fmt r m rest i w (inl e) = rw e (announce_f0 r m rest i w)
header-Announces fmt r m rest i w (inr (inl c)) = rw c.0 (announce_f1 r m rest i w c.1)
header-Announces fmt r m rest i w (inr (inr (inl c))) =
    rw c.0 (announce_f2 r m rest i w c.1 c.2 c.3)
header-Announces fmt r m rest i w (inr (inr (inr c))) = rw c.0 (announce_f3 r m rest i c.1 c.2 c.3)
