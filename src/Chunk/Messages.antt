-- ===== src/Chunk/Messages.antt =====
-- `write_chunk` of rtmp_chunk_stream.cpp against the reading loop of rtmp_session.cpp.
use drone_server.Chunk.{ChunkStream, clear_stream, complete}
use drone_server.Chunk.Arrival.{arrives}
use drone_server.Chunk.Headers.{FitsWire, format_for-IsChosen}
use drone_server.Chunk.Payload.{waiting}
use drone_server.Chunk.Receiving.{receive, update}
use drone_server.Chunk.Rounds.{IsReceived, joined}
use drone_server.Chunk.Sending.{
  Agrees, IsReceived-Agrees, format_for-forced, IsReceived-own_time, write_chunk-sent,
}
use drone_server.Chunk.Writing.{Message, format_for, remember, total_length, write_chunk}
use drone_server.Media.Fanout.{received}
use drone_server.Prelude.{
  Bool, Bool-cases, List, Option, [], arith, false, inl, inr, length, refl, some, subst, true, ℕ,
  ◌%◌, ◌++◌, ◌<◌, ◌==◌, ◌^◌, ◌∙◌, ◌≡◌, ◌≢◌, ◌⊎◌,
}
use drone_server.Prelude.Bytes.{Bytes}
use drone_server.Prelude.Outcome.{ok}

forced_time :
    (s : ChunkStream) (m : Message) (force_f0 : Bool) (t u : ℕ)
    → u ≡ t
    → (format_for s m force_f0 ≡ 0 → t ≡ m.time % 2 ^ 24)
    → (force_f0 ≡ false) ⊎ (u ≡ m.time % 2 ^ 24)
forced_time s m true t u same timed = inr (same ∙ timed (format_for-forced s m true refl))
forced_time s m false t u same timed = inl refl

update-only {ℓ} :
    {A : Type ℓ} (f g : ℕ → A) (k : ℕ) (v : A)
    → g k ≡ v
    → ((j : ℕ) → k ≢ j → g j ≡ f j)
    → (j : ℕ) → g j ≡ update f k v j
update-only f g k v h others j = elim (Bool-cases (k == j)) [
  | inl e ↦ rw e (subst (λ i. g i ≡ v) (ground (arith, e)) h)
  | inr e ↦ rw e (others j (ground (arith, e)))
]

-- What one call of `write_chunk` and the reading loop on its packets come to.
abbrev pub Transfers :
    ℕ
    → ℕ
    → ℕ
    → ℕ
    → ℕ
    → ChunkStream
    → ChunkStream
    → Message
    → Bytes
    → Bytes
    → Bool
    → (ℕ → Option ChunkStream)
    → ℕ
    → ℕ
    → Type 0
Transfers max_chunk_size fresh_fmt fresh_rem f g s r m msg rest force_f0 cs fmt₀ csid₀ =
    (sent : List Bytes) × (s' r' : ChunkStream) × (n fmt : ℕ) × (cs' : ℕ → Option ChunkStream)
    × (write_chunk f max_chunk_size m msg force_f0 s ≡ ok (sent, s', n))
    × (receive g (waiting max_chunk_size fresh_fmt fresh_rem cs fmt₀ csid₀ (joined sent ++ rest))
        ≡ ok (complete, waiting max_chunk_size fresh_fmt fresh_rem cs' fmt s.csid rest))
    × (cs' s.csid ≡ some r')
    × IsReceived r'.time m msg r'
    × ((force_f0 ≡ false) ⊎ (r'.time ≡ m.time % 2 ^ 24))
    × ((k : ℕ) → cs' k ≡ update cs s.csid (some r') k)
    × Agrees s' (clear_stream r')

-- A message that `write_chunk` sends on a chunk stream whose two ends agree is received whole by the
-- reading loop, whatever the format chosen and however many chunks it takes, with the rest of the
-- input unread and the other streams untouched, and with the time of the message to 24 bits if a
-- header of format 0 was forced; the two ends agree again once the reader has cleared its stream. The
-- chunk size is positive, the chunk stream id below 64, the fields fit the wire with no extended time,
-- and the fuel is more than the length of the message on either side.
pub receive-write_chunk :
    (max_chunk_size fresh_fmt fresh_rem f g : ℕ) (s r : ChunkStream) (m : Message)
    (msg rest : Bytes) (force_f0 : Bool) (cs : ℕ → Option ChunkStream) (fmt₀ csid₀ : ℕ)
    → 0 < max_chunk_size
    → s.csid < 64
    → cs s.csid ≡ some r
    → Agrees s r
    → FitsWire m
    → m.size ≡ length msg
    → length msg < f
    → length msg < g
    → Transfers max_chunk_size fresh_fmt fresh_rem f g s r m msg rest force_f0 cs fmt₀ csid₀
receive-write_chunk max_chunk_size fresh_fmt fresh_rem f g s r m msg rest force_f0 cs fmt₀ csid₀
      positive small known agree fits sized enough rounds =
    let fmt = format_for s m force_f0 in
    let (sent, t, es, (cs', r', fmt', e, known', received, others), timed) =
      arrives max_chunk_size fresh_fmt fresh_rem s.csid small positive m cs fmt₀ csid₀ r known
        agree.1 fits f g fmt msg rest (format_for-IsChosen s r m force_f0 agree.0) sized enough
        rounds in
    (
      sent,
      record (remember fmt m s) { content = [] },
      r',
      total_length sent % 2 ^ 32,
      fmt',
      cs',
      write_chunk-sent f max_chunk_size m msg force_f0 s sent agree.2 es,
      e,
      known',
      IsReceived-own_time t m msg r' received,
      forced_time s m force_f0 t r'.time received.same_time timed,
      λ k. update-only cs cs' s.csid (some r') known' others k,
      IsReceived-Agrees t m msg s r r' force_f0 fmt refl agree.0 received,
    )
