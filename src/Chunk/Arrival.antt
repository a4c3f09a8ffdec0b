-- ===== src/Chunk/Arrival.antt =====
-- The packets of one write_chunk of rtmp_chunk_stream.cpp, in one chunk or in several.
use drone_server.Chunk.{ChunkStream}
use drone_server.Chunk.Announcing.{header-Announces}
use drone_server.Chunk.Delivery.{deliver_one, deliver_several}
use drone_server.Chunk.Headers.{FitsWire, IsChosen, IsIdle, header_bytes-tail}
use drone_server.Chunk.Payload.{waiting}
use drone_server.Chunk.Receiving.{receive}
use drone_server.Chunk.RoundTrip.{Delivers}
use drone_server.Chunk.Rounds.{joined}
use drone_server.Chunk.Sending.{send_rest_total}
use drone_server.Chunk.Writing.{Message, header_bytes, send_chunks}
use drone_server.Prelude.{
  Bool-cases, List, Option, [], append-nil, append_assoc, arith, drop, inl, inr, length,
  length-drop, ltb, some, suc, take, zero, ℕ, ◌%◌, ◌++◌, ◌<◌, ◌^◌, ◌∷◌, ◌≡◌, ◌≤◌,
}
use drone_server.Prelude.Bytes.{Bytes}
use drone_server.Prelude.Outcome.{ok}

module _ (max_chunk_size fresh_fmt fresh_rem csid : ℕ) (small : csid < 64)
    (positive : 0 < max_chunk_size) (m : Message) (cs : ℕ → Option ChunkStream) (fmt₀ csid₀ : ℕ)
    (r : ChunkStream) (known : cs csid ≡ some r) (idle : IsIdle r) (fits : FitsWire m) where
  -- What is sent, and that the reading loop delivers it.
  abbrev pub Arrives : ℕ → ℕ → ℕ → Bytes → Bytes → Type 0
  Arrives f g fmt msg rest =
      (sent : List Bytes) × (t : ℕ) × (send_chunks f max_chunk_size csid (header_bytes fmt csid m)
          msg
        ≡ ok sent)
      × Delivers max_chunk_size fresh_fmt fresh_rem csid t cs m msg rest (
          receive g
            (waiting max_chunk_size fresh_fmt fresh_rem cs fmt₀ csid₀ (joined sent ++ rest)))
      × (fmt ≡ 0 → t ≡ m.time % 2 ^ 24)

  Arrives-one :
      (f g fmt : ℕ) (msg rest : Bytes)
      → IsChosen fmt m r
      → m.size ≡ length msg
      → length msg ≤ max_chunk_size
      → Arrives f (suc g) fmt msg rest
  unfolding send_chunks
  Arrives-one f g fmt msg rest chosen sized le =
      let (a, e, announced, timed) = header-Announces fmt r m (msg ++ rest) idle fits chosen in
      (
        (header_bytes fmt csid m ++ msg) ∷ [],
        a.time,
        ground arith,
        rw
            (
              append-nil (header_bytes fmt csid m ++ msg),
              append_assoc (header_bytes fmt csid m) msg rest,
              header_bytes-tail fmt csid m r chosen,
            )
            (deliver_one max_chunk_size fresh_fmt fresh_rem csid small positive m cs fmt₀ csid₀ r
              known idle fits g fmt a msg rest chosen sized le e announced),
        timed,
      )

  Arrives-several :
      (f g fmt : ℕ) (msg rest : Bytes)
      → IsChosen fmt m r
      → m.size ≡ length msg
      → max_chunk_size < length msg
      → length msg < f
      → length msg ≤ g
      → Arrives f (suc g) fmt msg rest
  unfolding send_chunks
  Arrives-several f g fmt msg rest chosen sized lt enough rounds =
      let pay = take max_chunk_size msg in
      let (more, es, le) =
        send_rest_total f max_chunk_size csid (drop max_chunk_size msg) positive
          (omega (arith, length-drop max_chunk_size msg)) in
      let (a, e, announced, timed) =
        header-Announces fmt r m (pay ++ (joined more ++ rest)) idle fits chosen in
      (
        (header_bytes fmt csid m ++ pay) ∷ more,
        a.time,
        ground (arith, es),
        rw
            (
              append_assoc (header_bytes fmt csid m ++ pay) (joined more) rest,
              append_assoc (header_bytes fmt csid m) pay (joined more ++ rest),
              header_bytes-tail fmt csid m r chosen,
            )
            (deliver_several max_chunk_size fresh_fmt fresh_rem csid small positive m cs fmt₀ csid₀
              r known idle fits g f fmt a msg rest more chosen sized lt es
              (omega (arith, le, length-drop max_chunk_size msg)) e announced),
        timed,
      )

  pub arrives :
      (f g fmt : ℕ) (msg rest : Bytes)
      → IsChosen fmt m r
      → m.size ≡ length msg
      → length msg < f
      → length msg < g
      → Arrives f g fmt msg rest
  arrives f zero fmt msg rest chosen sized enough rounds = absurd (omega arith)
  arrives f (suc g) fmt msg rest chosen sized enough rounds =
      elim (Bool-cases (ltb max_chunk_size (length msg))) [
        | inl e ↦ Arrives-several f g fmt msg rest chosen sized (ground arith) enough (omega arith)
        | inr e ↦ Arrives-one f g fmt msg rest chosen sized (ground arith)
      ]
