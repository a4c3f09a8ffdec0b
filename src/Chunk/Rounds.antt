-- ===== src/Chunk/Rounds.antt =====
-- Steps of the reading loop of rtmp_session.cpp and of the writing loop of write_chunk.
use drone_server.Chunk.{
  ChunkStream, complete, header, payload, read_f3, read_header, read_header_of, requested,
}
use drone_server.Chunk.Receiving.{Input, read_chunk_stream, receive, stream_of, update}
use drone_server.Chunk.Writing.{Message, basic_header, send_rest}
use drone_server.Prelude.{
  List, [], arith, drop, false, length, some, suc, take, true, zero, ℕ, ◌++◌, ◌<◌, ◌==◌, ◌∷◌, ◌≡◌,
}
use drone_server.Prelude.Bytes.{Bytes}
use drone_server.Prelude.Outcome.{ok}

abbrev pub joined : List Bytes → Bytes
joined [] = []
joined (p ∷ ps) = p ++ joined ps

-- What the reader has when a message is whole: the stream of the chunk's id is ready and holds the
-- message, and it is the stream that the loop goes on with.
pub record IsReceived (t : ℕ) (m : Message) (msg : Bytes) (s : ChunkStream) : Type 0 where
  pub is_ready : s.ready ≡ true
  pub whole : s.content ≡ msg
  pub same_len : s.len ≡ m.size
  pub same_type : s.type ≡ m.type_id
  pub same_stream : s.stream_id ≡ m.stream_id
  pub same_time : s.time ≡ t
  pub nothing_left : s.rem ≡ 0
  pub at_header : s.phase ≡ header
  pub no_extended : s.ext_ts ≡ false

-- The stream in the middle of a message, of which `msg` is still to come.
pub record IsPartial (t : ℕ) (m : Message) (sofar msg : Bytes) (s : ChunkStream) : Type 0 where
  pub some_left : s.rem ≡ length msg
  pub content_sofar : s.content ≡ sofar
  pub same_len : s.len ≡ m.size
  pub same_type : s.type ≡ m.type_id
  pub same_stream : s.stream_id ≡ m.stream_id
  pub same_time : s.time ≡ t
  pub no_extended : s.ext_ts ≡ false
  pub not_ready : s.ready ≡ false

-- A chunk of format 3 in the middle of a message has no header beyond its first byte.
pub read_header-rest :
    (s : ChunkStream) (buf : Bytes)
    → s.phase ≡ header
    → s.ext_ts ≡ false
    → 0 < s.rem
    → read_header 3 s buf ≡ (complete, record s { fmt = 3; phase = payload }, buf)
unfolding read_header read_header_of read_f3
read_header-rest s buf at_header plain left = rw (at_header, read_header) (ground arith)

pub receive_ready :
    (g : ℕ) (i j : Input)
    → read_chunk_stream i ≡ (complete, j)
    → (stream_of j).ready ≡ true
    → receive (suc g) i ≡ ok (complete, j)
unfolding receive
receive_ready g i j e r = rw e (rw r)

pub receive_again :
    (g : ℕ) (i j : Input)
    → read_chunk_stream i ≡ (complete, j)
    → (stream_of j).ready ≡ false
    → (length j.recv_buf == 0) ≡ false
    → receive (suc g) i ≡ receive g j
unfolding receive
receive_again g i j e r n = rw e (rw (r, n))

pub update_self {ℓ} : {A : Type ℓ} (f : ℕ → A) (k : ℕ) (v : A) → update f k v k ≡ v
update_self f k v = ground arith

pub stream_of-known : (i : Input) (s : ChunkStream) → i.cs_in i.csid ≡ some s → stream_of i ≡ s
unfolding stream_of
stream_of-known i s e = rw (e, stream_of)

-- How the writing loop ends.
pub send_rest-cons :
    (f max_chunk_size csid x : ℕ) (xs : Bytes) (sent : List Bytes)
    → send_rest (suc f) max_chunk_size csid (x ∷ xs) ≡ ok sent
    → let q = requested max_chunk_size (suc (length xs)) in
      (more : List Bytes) × (send_rest f max_chunk_size csid (drop q (x ∷ xs)) ≡ ok more)
      × (sent ≡ (basic_header 3 csid ∷ take q (x ∷ xs)) ∷ more)
unfolding send_rest
send_rest-cons f max_chunk_size csid x xs sent e = ground arith

pub send_rest-empty :
    (f max_chunk_size csid : ℕ) (sent : List Bytes)
    → send_rest f max_chunk_size csid [] ≡ ok sent
    → sent ≡ []
unfolding send_rest
send_rest-empty zero max_chunk_size csid sent e = cc
send_rest-empty (suc f) max_chunk_size csid sent e = ground arith

pub send_rest-nonempty :
    (f max_chunk_size csid : ℕ) (msg : Bytes) (sent : List Bytes)
    → send_rest f max_chunk_size csid msg ≡ ok sent
    → 0 < length msg
    → (0 < length (joined sent)) × (0 < length sent)
unfolding send_rest
send_rest-nonempty f max_chunk_size csid [] sent e lo = absurd (omega arith)
send_rest-nonempty zero max_chunk_size csid (x ∷ xs) sent e lo = cc
send_rest-nonempty (suc f) max_chunk_size csid (x ∷ xs) sent e lo =
    let (more, e', es) = send_rest-cons f max_chunk_size csid x xs sent e in rw es (omega arith)

pub send_rest-zero :
    (max_chunk_size csid : ℕ) (msg : Bytes) (sent : List Bytes)
    → send_rest 0 max_chunk_size csid msg ≡ ok sent
    → ⊥
unfolding send_rest
send_rest-zero max_chunk_size csid msg sent e = cc
