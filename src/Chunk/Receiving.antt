-- ===== src/Chunk/Receiving.antt =====
-- `rtmp_session::read_chunk_stream`, and the loop of `rtmp_session::handle` up to the next whole
-- message.
use drone_server.Chunk.{
  Answer, ChunkStream, byte_in, complete, incomplete, new_chunk_stream, read_header, read_payload,
}
use drone_server.Prelude.{
  Bool, Option, drop, false, if◌then◌else◌, length, none, some, suc, true, zero, ℕ, ◌%◌, ◌/◌, ◌==◌,
}
use drone_server.Prelude.Bytes.{Bytes}
use drone_server.Prelude.Outcome.{Outcome, ok, out_of_fuel}

-- The fields of rtmp_session that reading chunks is about. `cs_in` maps a chunk stream id to its
-- stream; `fresh_fmt` and `fresh_rem` stand for the fields that a new stream leaves unset.
pub record Input : Type 0 where
  pub recv_buf : Bytes
  pub max_chunk_size : ℕ
  pub header_read : Bool
  pub csid : ℕ
  pub fmt : ℕ
  pub cs_in : ℕ → Option ChunkStream
  pub fresh_fmt : ℕ
  pub fresh_rem : ℕ

abbrev pub update {ℓ} : {A : Type ℓ} → (ℕ → A) → ℕ → A → ℕ → A
update f k v j = if k == j then v else f j

-- `if (!header_read) { … }`
unfoldable pub read_basic_header : Input → Input
read_basic_header i = if i.header_read then i else record i {
  recv_buf = drop 1 i.recv_buf;
  fmt = byte_in i.recv_buf 0 / 64 % 4;
  csid = byte_in i.recv_buf 0 % 64;
  header_read = true;
}

-- `if (cs_in.count(csid_) == 0) cs_in[csid_] = …`
unfoldable pub stream_of : Input → ChunkStream
stream_of i = elim (i.cs_in i.csid) [
  | none ↦ new_chunk_stream i.fresh_fmt i.fresh_rem i.csid
  | some s ↦ s
]

abbrev pub store : Input → ChunkStream → Bytes → Input
store i s buf = record i { cs_in = update i.cs_in i.csid (some s); recv_buf = buf }

-- The payload, once the header has answered 0.
abbrev pub then_payload : Input → Answer × ChunkStream × Bytes → Answer × Input
then_payload i (complete, s, buf) = (complete, record (store i s buf) { header_read = false })
then_payload i (answer, s, buf) = (answer, store i s buf)

abbrev pub then_header : Input → Answer × ChunkStream × Bytes → Answer × Input
then_header i (complete, s, buf) = then_payload i (read_payload i.max_chunk_size s buf)
then_header i (answer, s, buf) = (answer, store i s buf)

unfoldable pub read_chunk : Input → Answer × Input
read_chunk i = then_header i (read_header i.fmt (stream_of i) i.recv_buf)

unfoldable pub read_chunk_stream : Input → Answer × Input
read_chunk_stream i =
    if length i.recv_buf == 0 then (incomplete, i) else read_chunk (read_basic_header i)

abbrev pub has_message : Input → Bool
has_message i = (stream_of i).ready

-- The end of a round: a message is whole, or the buffer is empty, or another round is made.
abbrev pub after_chunk :
    (Input → Outcome (Answer × Input)) → Answer × Input → Outcome (Answer × Input)
after_chunk again (complete, i) =
    if has_message i
    then ok (complete, i)
    else if length i.recv_buf == 0
    then ok (incomplete, i)
    else again i
after_chunk again (answer, i) = ok (answer, i)

-- The rounds of the loop in `handle` up to the first whole message: the answer is `complete` when
-- `cs_in[csid_]->ready()`. Each round reads a byte or more, so fuel for each byte is enough.
unfoldable pub receive : ℕ → Input → Outcome (Answer × Input)
receive zero i = out_of_fuel
receive (suc fuel) i = after_chunk (receive fuel) (read_chunk_stream i)
