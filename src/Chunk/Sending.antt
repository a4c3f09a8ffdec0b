-- ===== src/Chunk/Sending.antt =====
-- The loop of write_chunk of rtmp_chunk_stream.cpp, and the stream after it.
use drone_server.Chunk.{ChunkStream, clear_stream, requested}
use drone_server.Chunk.Headers.{IsIdle, IsSynced}
use drone_server.Chunk.Rounds.{IsReceived}
use drone_server.Chunk.Writing.{
  Message, basic_header, format_for, header_bytes, remember, send_chunks, send_rest, total_length,
  write_chunk,
}
use drone_server.Prelude.{
  Bool, List, [], ap, arith, drop, length, length-drop, refl, subst, suc, sym, take, true, zero, ℕ,
  ◌%◌, ◌++◌, ◌-◌, ◌<◌, ◌^◌, ◌∷◌, ◌≡◌, ◌≤◌,
}
use drone_server.Prelude.Bytes.{Bytes}
use drone_server.Prelude.Outcome.{ok}

drop-shorter :
    (max_chunk_size f : ℕ) (msg : Bytes)
    → 0 < max_chunk_size
    → 0 < length msg
    → length msg < suc f
    → length (drop max_chunk_size msg) < f
drop-shorter max_chunk_size f msg lo l lt = omega (arith, length-drop max_chunk_size msg)

requested-positive :
    (max_chunk_size n : ℕ) → 0 < max_chunk_size → 0 < n → 0 < requested max_chunk_size n
requested-positive max_chunk_size n lo l = ground arith

-- The writing loop ends, after at most one packet for each byte.
pub send_rest_total :
    (f max_chunk_size csid : ℕ) (msg : Bytes)
    → 0 < max_chunk_size
    → length msg < f
    → (sent : List Bytes) × (send_rest f max_chunk_size csid msg ≡ ok sent)
      × (length sent ≤ length msg)
unfolding send_rest
send_rest_total zero max_chunk_size csid msg lo lt = absurd (omega arith)
send_rest_total (suc f) max_chunk_size csid [] lo lt = ([], refl, omega arith)
send_rest_total (suc f) max_chunk_size csid (x ∷ xs) lo lt =
    let q = requested max_chunk_size (suc (length xs)) in
    let positive = requested-positive max_chunk_size (suc (length xs)) lo (omega arith) in
    let (more, e, le) =
      send_rest_total f max_chunk_size csid (drop q (x ∷ xs)) lo
        (drop-shorter q f (x ∷ xs) positive (omega arith) lt) in
    (
      (basic_header 3 csid ∷ take q (x ∷ xs)) ∷ more,
      rw e refl,
      omega (arith, le, length-drop q (x ∷ xs), positive),
    )

-- The two streams after the message.
abbrev pub Agrees : ChunkStream → ChunkStream → Type 0
Agrees s r = IsSynced s r × IsIdle r × (s.content ≡ [])

clear_stream-Agrees :
    (t : ℕ) (m : Message) (msg : Bytes) (s r r' : ChunkStream) (force_f0 : Bool)
    → IsSynced s r
    → IsReceived t m msg r'
    → Agrees (record (remember (format_for s m force_f0) m s) { content = [] }) (clear_stream r')
unfolding remember format_for clear_stream
clear_stream-Agrees t m msg s r r' force_f0 y d = ground arith

pub IsReceived-Agrees :
    (t : ℕ) (m : Message) (msg : Bytes) (s r r' : ChunkStream) (force_f0 : Bool) (fmt : ℕ)
    → fmt ≡ format_for s m force_f0
    → IsSynced s r
    → IsReceived t m msg r'
    → Agrees (record (remember fmt m s) { content = [] }) (clear_stream r')
IsReceived-Agrees t m msg s r r' force_f0 fmt e y d =
    rw e (clear_stream-Agrees t m msg s r r' force_f0 y d)

-- What `write_chunk` sends and leaves is what the parts below say.
pub write_chunk-sent :
    (f max_chunk_size : ℕ) (m : Message) (msg : Bytes) (force_f0 : Bool) (s : ChunkStream)
    (sent : List Bytes)
    → s.content ≡ []
    → send_chunks f max_chunk_size s.csid (header_bytes (format_for s m force_f0) s.csid m) msg
      ≡ ok sent
    → write_chunk f max_chunk_size m msg force_f0 s
      ≡ ok (
        sent,
        record (remember (format_for s m force_f0) m s) { content = [] },
        total_length sent % 2 ^ 32,
      )
unfolding write_chunk
write_chunk-sent f max_chunk_size m msg force_f0 s sent empty_data e =
    let head = header_bytes (format_for s m force_f0) s.csid m in
    let e' : send_chunks f max_chunk_size s.csid (s.content ++ head) msg ≡ ok sent =
      subst (λ d. send_chunks f max_chunk_size s.csid (d ++ head) msg ≡ ok sent) (sym empty_data)
        e in
    let none_held : length s.content ≡ 0 = ap length empty_data in
    let counted : (total_length sent - length s.content) % 2 ^ 32 ≡ total_length sent % 2 ^ 32 =
      omega arith in
    rw e' (
      ap (λ n. ok (sent, record (remember (format_for s m force_f0) m s) { content = [] }, n))
        counted)

pub IsReceived-own_time :
    (t : ℕ) (m : Message) (msg : Bytes) (r : ChunkStream)
    → IsReceived t m msg r
    → IsReceived r.time m msg r
IsReceived-own_time t m msg r d = rw (← d.same_time) at d

pub format_for-forced :
    (s : ChunkStream) (m : Message) (force_f0 : Bool)
    → force_f0 ≡ true
    → format_for s m force_f0 ≡ 0
unfolding format_for
format_for-forced s m force_f0 e = ground arith
