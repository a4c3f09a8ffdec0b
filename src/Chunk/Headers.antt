-- ===== src/Chunk/Headers.antt =====
-- The headers of rtmp_chunk_stream.cpp, written and read.
use drone_server.Chunk.{
  Answer, ChunkStream, begin_message, complete, header, read_f0, read_f1, read_f2, read_f3, word24,
}
use drone_server.Chunk.Writing.{Message, basic_header, format_for, header_bytes, little_endian32}
use drone_server.Prelude.{
  Bool, [], arith, drop, false, if◌then◌else◌, inl, inr, ℕ, ◌%◌, ◌++◌, ◌+◌, ◌<◌, ◌==◌, ◌^◌, ◌||◌,
  ◌∷◌, ◌≡◌, ◌≢◌, ◌⊎◌,
}
use drone_server.Prelude.Bytes.{Bytes, big_endian}

-- The reader's stream between two messages: nothing is half read and no extended time was seen.
pub record IsIdle (s : ChunkStream) : Type 0 where
  pub no_extended : s.ext_ts ≡ false
  pub at_header : s.phase ≡ header
  pub no_content : s.content ≡ []
  pub not_ready : s.ready ≡ false
  pub nothing_left : s.rem ≡ 0

-- The values that fit their fields on the wire, the times apart from the mark of an extended one.
pub record FitsWire (m : Message) : Type 0 where
  pub time_fits : m.time % 2 ^ 24 ≢ 0xff_ffff
  pub dtime_fits : m.dtime % 2 ^ 24 ≢ 0xff_ffff
  pub size_fits : m.size < 2 ^ 24
  pub type_fits : m.type_id < 256
  pub stream_fits : m.stream_id < 2 ^ 32

-- The stream after a header: the message is announced, and its payload comes next.
pub record IsAnnounced (m : Message) (s : ChunkStream) : Type 0 where
  pub same_len : s.len ≡ m.size
  pub same_type : s.type ≡ m.type_id
  pub same_stream : s.stream_id ≡ m.stream_id
  pub all_left : s.rem ≡ m.size
  pub no_extended : s.ext_ts ≡ false
  pub no_content : s.content ≡ []
  pub not_ready : s.ready ≡ false

word24-big_endian3 : (v : ℕ) (r : Bytes) → word24 (big_endian 3 v ++ r) 0 ≡ v % 2 ^ 24
unfolding big_endian
word24-big_endian3 v r = omega arith

-- Format 0.
pub read_f0-header :
    (s : ChunkStream) (m : Message) (r : Bytes)
    → IsIdle s
    → FitsWire m
    → read_f0 s (
        big_endian 3 m.time
        ++ (big_endian 3 m.size ++ m.type_id ∷ (little_endian32 m.stream_id ++ r)))
      ≡ (
        complete,
        record s {
          time = m.time % 2 ^ 24;
          dtime = 0;
          len = m.size;
          type = m.type_id;
          stream_id = m.stream_id;
          rem = m.size;
        },
        r,
      )
unfolding read_f0 big_endian
read_f0-header s m r i w = ground arith

pub read_f1-header :
    (s : ChunkStream) (m : Message) (r : Bytes)
    → FitsWire m
    → read_f1 s (big_endian 3 m.dtime ++ (big_endian 3 m.size ++ m.type_id ∷ r)) ≡ (
      complete,
      record s {
        time = (s.time + m.dtime % 2 ^ 24) % 2 ^ 32;
        dtime = m.dtime % 2 ^ 24;
        len = m.size;
        type = m.type_id;
        rem = m.size;
      },
      r,
    )
unfolding read_f1 big_endian
read_f1-header s m r w = ground arith

pub read_f2-header :
    (s : ChunkStream) (m : Message) (r : Bytes)
    → FitsWire m
    → read_f2 s (big_endian 3 m.dtime ++ r) ≡ (
      complete,
      record s {
        time = (s.time + m.dtime % 2 ^ 24) % 2 ^ 32;
        dtime = m.dtime % 2 ^ 24;
        rem = s.len;
      },
      r,
    )
unfolding read_f2 big_endian
read_f2-header s m r w = ground arith

-- The header is read, whatever follows, and announces the message; a header of format 0 also sets the
-- time, to 24 bits.
abbrev pub Announces : ℕ → Message → Bytes → Answer × ChunkStream × Bytes → Type 0
Announces fmt m r out =
    (s : ChunkStream) × (out ≡ (complete, s, r))
    × IsAnnounced m s
    × (fmt ≡ 0 → s.time ≡ m.time % 2 ^ 24)

pub read_f3-header :
    (s : ChunkStream) (m : Message) (r : Bytes)
    → IsIdle s
    → s.len ≡ m.size
    → s.type ≡ m.type_id
    → s.stream_id ≡ m.stream_id
    → (s' : ChunkStream) × (read_f3 s r ≡ (complete, s', r)) × IsAnnounced m s'
unfolding read_f3
read_f3-header s m r i l t d = (
  record (begin_message s) {
    time =
        if s.fmt == 0
        then s.time
        else if s.fmt == 1 || s.fmt == 2
        then (s.time + s.dtime) % 2 ^ 32
        else s.time;
  },
  ground arith,
  ground arith,
)

-- What the writer's and the reader's streams agree on.
pub record IsSynced (s r : ChunkStream) : Type 0 where
  pub len_synced : s.len ≡ r.len
  pub type_synced : s.type ≡ r.type
  pub stream_synced : s.stream_id ≡ r.stream_id

-- The bytes of a header after the basic header.
abbrev pub header_tail : ℕ → Message → Bytes
header_tail fmt m = drop 1 (header_bytes fmt 0 m)

-- A format that the writer may choose, for the reader's stream.
abbrev pub IsChosen : ℕ → Message → ChunkStream → Type 0
IsChosen fmt m r =
    (fmt ≡ 0)
    ⊎ ((fmt ≡ 1) × (r.stream_id ≡ m.stream_id))
    ⊎ ((fmt ≡ 2) × (r.len ≡ m.size) × (r.type ≡ m.type_id) × (r.stream_id ≡ m.stream_id))
    ⊎ ((fmt ≡ 3) × (r.len ≡ m.size) × (r.type ≡ m.type_id) × (r.stream_id ≡ m.stream_id))

pub format_for-IsChosen :
    (s r : ChunkStream) (m : Message) (force_f0 : Bool)
    → IsSynced s r
    → IsChosen (format_for s m force_f0) m r
unfolding format_for
format_for-IsChosen s r m force_f0 y = ground arith

pub header_bytes-tail :
    (fmt csid : ℕ) (m : Message) (r : ChunkStream)
    → IsChosen fmt m r
    → header_bytes fmt csid m ≡ basic_header fmt csid ∷ header_tail fmt m
unfolding header_bytes
header_bytes-tail fmt csid m r (inl e) = rw e
header_bytes-tail fmt csid m r (inr (inl c)) = rw c.0
header_bytes-tail fmt csid m r (inr (inr (inl c))) = rw c.0
header_bytes-tail fmt csid m r (inr (inr (inr c))) = rw c.0
