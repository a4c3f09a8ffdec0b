-- ===== src/Chunk/Writing.antt =====
-- `write_chunk`, on a message of fewer than 2^32 bytes, and what it hands to `async_write`.
use drone_server.Chunk.{ChunkStream, requested}
use drone_server.Prelude.{
  Bool, List, [], drop, if◌then◌else◌, length, ltb, not, suc, take, zero, ℕ, ◌%◌, ◌&&◌, ◌*◌, ◌++◌,
  ◌+◌, ◌-◌, ◌==◌, ◌^◌, ◌∷◌,
}
use drone_server.Prelude.Bytes.{Bytes, big_endian, byte_at}
use drone_server.Prelude.Outcome.{Outcome, ok, out_of_fuel, ◌>>=◌}

-- ChunkBasicHeader1: six bits of chunk stream id, two of format.
abbrev pub basic_header : ℕ → ℕ → ℕ
basic_header fmt csid = fmt * 64 + csid % 64

abbrev pub little_endian32 : ℕ → Bytes
little_endian32 v = byte_at v 0 ∷ byte_at v 1 ∷ byte_at v 2 ∷ byte_at v 3 ∷ []

-- What one call is to send, apart from the bytes of the message.
pub record Message : Type 0 where
  pub time : ℕ
  pub dtime : ℕ
  pub type_id : ℕ
  pub stream_id : ℕ
  pub size : ℕ

-- The choice of the format, from what the stream last sent.
unfoldable pub format_for : ChunkStream → Message → Bool → ℕ
format_for s m force_f0 =
    if s.dtime == m.dtime
      && s.len == m.size
      && s.type == m.type_id
      && s.stream_id == m.stream_id
      && not force_f0
    then 3
    else if s.len == m.size && s.type == m.type_id && s.stream_id == m.stream_id && not force_f0
    then 2
    else if s.stream_id == m.stream_id && not force_f0
    then 1
    else 0

unfoldable pub header_bytes : ℕ → ℕ → Message → Bytes
header_bytes fmt csid m =
    if fmt == 3
    then basic_header 3 csid ∷ []
    else if fmt == 2
    then basic_header 2 csid ∷ big_endian 3 m.dtime
    else if fmt == 1
    then basic_header 1 csid ∷ (big_endian 3 m.dtime ++ (big_endian 3 m.size ++ m.type_id ∷ []))
    else basic_header 0 csid
      ∷ (big_endian 3 m.time ++ (big_endian 3 m.size ++ m.type_id ∷ little_endian32 m.stream_id))

-- What the stream remembers of the header.
unfoldable pub remember : ℕ → Message → ChunkStream → ChunkStream
remember fmt m s =
    if fmt == 3
    then s
    else if fmt == 2
    then record s { dtime = m.dtime }
    else if fmt == 1
    then record s { dtime = m.dtime; len = m.size; type = m.type_id }
    else record s { time = m.time; len = m.size; type = m.type_id; stream_id = m.stream_id }

-- `while (msg_size > 0)`: the chunks after the first, on fuel.
unfoldable pub send_rest : ℕ → ℕ → ℕ → Bytes → Outcome (List Bytes)
send_rest zero max_chunk_size csid msg = out_of_fuel
send_rest (suc fuel) max_chunk_size csid [] = ok []
send_rest (suc fuel) max_chunk_size csid (x ∷ msg) =
    send_rest fuel max_chunk_size csid
      (drop (requested max_chunk_size (suc (length msg))) (x ∷ msg))
    >>= λ sent. ok (
        (basic_header 3 csid ∷ take (requested max_chunk_size (suc (length msg))) (x ∷ msg)) ∷ sent)

-- The packets for a message, after a header that stands in `data_`.
unfoldable pub send_chunks : ℕ → ℕ → ℕ → Bytes → Bytes → Outcome (List Bytes)
send_chunks fuel max_chunk_size csid head msg =
    if ltb max_chunk_size (length msg)
    then (send_rest fuel max_chunk_size csid (drop max_chunk_size msg) >>= λ sent.
        ok ((head ++ take max_chunk_size msg) ∷ sent))
    else ok ((head ++ msg) ∷ [])

abbrev pub total_length : List Bytes → ℕ
total_length [] = 0
total_length (p ∷ ps) = length p + total_length ps

-- The packets handed to `async_write`, the stream afterwards, and the number of bytes returned. What
-- `data_` held before the call goes out with the header and is not counted.
unfoldable pub write_chunk :
    ℕ → ℕ → Message → Bytes → Bool → ChunkStream → Outcome (List Bytes × ChunkStream × ℕ)
write_chunk fuel max_chunk_size m msg force_f0 s =
    let fmt = format_for s m force_f0 in
    send_chunks fuel max_chunk_size s.csid (s.content ++ header_bytes fmt s.csid m) msg >>= λ sent.
    ok (
      sent,
      record (remember fmt m s) { content = [] },
      (total_length sent - length s.content) % 2 ^ 32,
    )
