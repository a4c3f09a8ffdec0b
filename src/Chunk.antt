-- ===== src/Chunk.antt =====
-- src/rtmp/src/DDS/rtmp/rtmp_chunk_stream.hpp and .cpp, and the chunk loop of rtmp_session.cpp:
-- messages cut into chunks and put together again. Here the state and the reading side; Chunk/Writing
-- has the writing side.
pub mod Writing
pub mod Receiving
pub mod Headers
pub mod Announcing
pub mod Payload
pub mod Rounds
pub mod RoundTrip
pub mod Delivery
pub mod Sending
pub mod Arrival
pub mod Messages
pub mod Bounds
pub mod Faults
pub mod Resumption
mod Examples
use drone_server.Buffer.{size}
use drone_server.Prelude.{
  Bool, [], drop, false, get_or, if◌then◌else◌, length, ltb, take, true, ℕ, ◌%◌, ◌*◌, ◌++◌, ◌+◌,
  ◌-◌, ◌==◌, ◌^◌, ◌||◌,
}
use drone_server.Prelude.Bytes.{Bytes}

-- What the functions that return an `int` answer: 0, 1 and -1.
pub data Answer : Type 0 where
  complete incomplete refused : Answer

-- enum { HEADER, PAYLOAD }
pub data Phase : Type 0 where
  header payload : Phase

pub record ChunkStream : Type 0 where
  pub time : ℕ
  pub dtime : ℕ
  pub len : ℕ
  pub stream_id : ℕ
  pub type : ℕ
  pub ext_ts : Bool
  pub fmt : ℕ
  pub csid : ℕ
  pub content : Bytes
  pub rem : ℕ
  pub ready : Bool
  pub phase : Phase

-- `fmt_` and `rem_` have no initial value in the source, so they are given.
unfoldable pub new_chunk_stream : ℕ → ℕ → ℕ → ChunkStream
new_chunk_stream fmt rem csid = record {
  time = 0xffff_ffff;
  dtime = 0xffff_ffff;
  len = 0;
  stream_id = 0xffff_ffff;
  type = 0;
  ext_ts = false;
  fmt = fmt;
  csid = csid;
  content = [];
  rem = rem;
  ready = false;
  phase = header;
}

-- The byte at an index below the size that the caller has tested.
abbrev pub byte_in : Bytes → ℕ → ℕ
byte_in buf i = get_or buf i 0

-- `(b[i] << 16) | (b[i + 1] << 8) | b[i + 2]`: of bytes, the sum.
abbrev pub word24 : Bytes → ℕ → ℕ
word24 buf i = byte_in buf i * 0x1_0000 + byte_in buf (i + 1) * 0x100 + byte_in buf (i + 2)

-- Four bytes popped from the front, the least significant first.
abbrev pub popped32 : Bytes → ℕ
popped32 buf =
    byte_in buf 0 + byte_in buf 1 * 0x100 + byte_in buf 2 * 0x1_0000 + byte_in buf 3 * 0x100_0000

abbrev pub extended_time : ℕ
extended_time = 0xff_ffff

-- What the three kinds of header begin with: `size` bytes, the first three a time, and four more
-- bytes if that time is the mark of an extended one. `ready_to` gets the time and the rest.
abbrev pub with_time :
    ℕ → ChunkStream → Bytes → (ChunkStream → ℕ → Bytes → ChunkStream) → Answer × ChunkStream × Bytes
with_time size s buf ready_to =
    if ltb (length buf) size
    then (incomplete, s, buf)
    else if word24 buf 0 == extended_time
    then (if ltb (length buf) (size + 4) then (incomplete, record s { ext_ts = true }, buf) else (
      complete,
      ready_to (record s { ext_ts = true }) (popped32 (drop size buf)) buf,
      drop 4 (drop size buf),
    ))
    else (complete, ready_to s (word24 buf 0) buf, drop size buf)

unfoldable pub read_f0 : ChunkStream → Bytes → Answer × ChunkStream × Bytes
read_f0 s buf = with_time 11 s buf λ s ts buf. record s {
  time = ts;
  dtime = 0;
  len = word24 buf 3;
  type = byte_in buf 6;
  stream_id =
      byte_in buf 10 * 0x100_0000
      + byte_in buf 9 * 0x1_0000
      + byte_in buf 8 * 0x100
      + byte_in buf 7;
  rem = word24 buf 3;
}

unfoldable pub read_f1 : ChunkStream → Bytes → Answer × ChunkStream × Bytes
read_f1 s buf = with_time 7 s buf λ s ts buf. record s {
  time = (s.time + ts) % 2 ^ 32;
  dtime = ts;
  len = word24 buf 3;
  type = byte_in buf 6;
  rem = word24 buf 3;
}

unfoldable pub read_f2 : ChunkStream → Bytes → Answer × ChunkStream × Bytes
read_f2 s buf =
    with_time 3 s buf
      λ s ts buf. record s { time = (s.time + ts) % 2 ^ 32; dtime = ts; rem = s.len }

-- The end of `read_f3` where a message begins: `data_->clear(); rem_ = len_; ready_ = false;`
abbrev pub begin_message : ChunkStream → ChunkStream
begin_message s = record s { content = []; rem = s.len; ready = false }

unfoldable pub read_f3 : ChunkStream → Bytes → Answer × ChunkStream × Bytes
read_f3 s buf =
    if s.rem == 0
    then (if s.fmt == 0
        then (if s.ext_ts
            then (if ltb (length buf) 4
                then (incomplete, s, buf)
                else (complete, begin_message (record s { time = popped32 buf }), drop 4 buf))
            else (complete, begin_message s, buf))
        else if s.fmt == 1 || s.fmt == 2
        then (if s.ext_ts
            then (if ltb (length buf) 4 then (incomplete, s, buf) else (
              complete,
              begin_message (record s { time = (s.time + popped32 buf) % 2 ^ 32 }),
              drop 4 buf,
            ))
            else (complete, begin_message (record s { time = (s.time + s.dtime) % 2 ^ 32 }), buf))
        else (complete, begin_message s, buf))
    else if s.ext_ts
    then (if ltb (length buf) 4
        then (incomplete, s, buf)
        else (complete, s, if popped32 buf == s.time then drop 4 buf else buf))
    else (complete, s, buf)

-- The end of `read_header`: the format is kept, and an answer of 0 moves on to the payload.
abbrev pub note_format : ℕ → Answer × ChunkStream × Bytes → Answer × ChunkStream × Bytes
note_format fmt (complete, s, buf) = (complete, record s { fmt = fmt; phase = payload }, buf)
note_format fmt (answer, s, buf) = (answer, record s { fmt = fmt }, buf)

unfoldable pub read_header_of : ℕ → ChunkStream → Bytes → Answer × ChunkStream × Bytes
read_header_of fmt s buf =
    if fmt == 0
    then read_f0 s buf
    else if fmt == 1
    then read_f1 s buf
    else if fmt == 2
    then read_f2 s buf
    else if fmt == 3
    then read_f3 s buf
    else (refused, s, buf)

unfoldable pub read_header : ℕ → ChunkStream → Bytes → Answer × ChunkStream × Bytes
read_header fmt s buf = elim s.phase [
  | header ↦ note_format fmt (read_header_of fmt s buf)
  | payload ↦ (complete, s, buf)
]

-- The bytes that the payload of this chunk has.
abbrev pub requested : ℕ → ℕ → ℕ
requested max_chunk_size rem = if ltb max_chunk_size rem then max_chunk_size else rem

unfoldable pub take_payload : ℕ → ChunkStream → Bytes → Answer × ChunkStream × Bytes
take_payload req s buf = if ltb (length buf) req then (incomplete, s, buf) else (
  complete,
  record s {
    content = s.content ++ take req buf;
    rem = s.rem - req;
    ready = if s.rem - req == 0 then true else s.ready;
    phase = header;
  },
  drop req buf,
)

unfoldable pub read_payload : ℕ → ChunkStream → Bytes → Answer × ChunkStream × Bytes
read_payload max_chunk_size s buf = elim s.phase [
  | header ↦ (complete, s, buf)
  | payload ↦ take_payload (requested max_chunk_size s.rem) s buf
]

unfoldable pub clear_stream : ChunkStream → ChunkStream
clear_stream s = record s { phase = header; ready = false; content = [] }
