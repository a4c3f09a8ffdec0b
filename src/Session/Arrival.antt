-- ===== src/Session/Arrival.antt =====
-- A message that write_chunk of rtmp_chunk_stream.cpp has sent, in the loop of `handle` of rtmp_session.cpp.
use drone_server.Chunk.{ChunkStream, clear_stream, complete}
use drone_server.Chunk.Headers.{FitsWire}
use drone_server.Chunk.Messages.{receive-write_chunk}
use drone_server.Chunk.Payload.{waiting}
use drone_server.Chunk.Receiving.{Input, update}
use drone_server.Chunk.Rounds.{IsReceived, joined}
use drone_server.Chunk.Sending.{Agrees}
use drone_server.Chunk.Writing.{Message, write_chunk}
use drone_server.Prelude.{
  Bool, List, Option, false, length, refl, some, ℕ, ◌++◌, ◌+◌, ◌<◌, ◌≡◌, ◌≤◌,
}
use drone_server.Prelude.Bytes.{Bytes}
use drone_server.Prelude.Outcome.{ok, ◌>>=◌}
use drone_server.Session.{current}
use drone_server.Session.Handling.{go_on, handle_message, handle_rounds, with_input}
use drone_server.Session.Receipt.{handle_rounds-receive}
use drone_server.Session.World.{World}

module _ (stoul : Bytes → Option ℕ) (fuel fresh_tid : ℕ) where
  -- The packets that `write_chunk` makes of a message, and what the loop of `handle` does when their bytes
  -- are before it: it handles the message on the input that reading it leaves, and goes on.
  abbrev pub HandlesSent : ℕ → ℕ → ℕ → World → ChunkStream → Message → Bytes → Bytes → Bool → Type 0
  HandlesSent f g spare w s m msg rest force_f0 =
      let before = w.session.input in
      (sent : List Bytes) × (s' c : ChunkStream) × (n more : ℕ) × (i : Input) × (write_chunk f
          before.max_chunk_size m msg force_f0 s
        ≡ ok (sent, s', n))
      × (spare ≤ more)
      × (handle_rounds stoul fuel fresh_tid (g + spare)
            (with_input w (record before { recv_buf = joined sent ++ rest }))
          ≡ handle_message stoul fuel fresh_tid (with_input w i)
            >>= go_on stoul fuel fresh_tid (handle_rounds stoul fuel fresh_tid more))
      × (current (with_input w i).session ≡ some c)
      × IsReceived c.time m msg c
      × (i.recv_buf ≡ rest)
      × (i.max_chunk_size ≡ before.max_chunk_size)
      × ((k : ℕ) → i.cs_in k ≡ update before.cs_in s.csid (some c) k)
      × Agrees s' (clear_stream c)

  -- Where the loop of `handle` has before it the packets that `write_chunk` made of one message, and any
  -- bytes after them, it handles nothing before the last of the packets is read; then it handles just this
  -- message, whole, with the bytes after it unread and the other streams as they were, and if the answer
  -- is 0 it goes on on at least the rounds to spare. The two ends of the chunk stream agree, and do so
  -- again once the reader has cleared its stream. The session is between two chunks, its chunk size, which
  -- the sender uses too, is positive, the chunk stream id is below 64, the fields fit the wire with no
  -- extended time, and the fuel is more than the length of the message on either side.
  pub handle_rounds-write_chunk :
      (f g spare : ℕ) (w : World) (s r : ChunkStream) (m : Message) (msg rest : Bytes)
      (force_f0 : Bool)
      → 0 < w.session.input.max_chunk_size
      → w.session.input.header_read ≡ false
      → s.csid < 64
      → w.session.input.cs_in s.csid ≡ some r
      → Agrees s r
      → FitsWire m
      → m.size ≡ length msg
      → length msg < f
      → length msg < g
      → HandlesSent f g spare w s m msg rest force_f0
  handle_rounds-write_chunk f g spare w s r m msg rest force_f0 positive between small known agree
        fits whole enough rounds =
      let b = w.session.input in
      let (sent, s', c, n, fmt, cs', e, got, known', received, timed, others, agrees) =
        receive-write_chunk b.max_chunk_size b.fresh_fmt b.fresh_rem f g s r m msg rest force_f0
          b.cs_in b.fmt b.csid positive small known agree fits whole enough rounds in
      let i = waiting b.max_chunk_size b.fresh_fmt b.fresh_rem cs' fmt s.csid rest in
      let (more, spared, handled) =
        handle_rounds-receive stoul fuel fresh_tid g spare
          (with_input w (record b { recv_buf = joined sent ++ rest })) (complete, i)
          (rw between got) in
      (sent, s', c, n, more, i, e, spared, handled, known', received, refl, refl, others, agrees)
