-- ===== src/Session/Agreement.antt =====
-- A control message of rtmp_session_control_message.cpp from one session to another.
use drone_server.Chunk.{ChunkStream, complete}
use drone_server.Chunk.Headers.{FitsWire}
use drone_server.Chunk.Messages.{receive-write_chunk}
use drone_server.Chunk.Payload.{waiting}
use drone_server.Chunk.Receiving.{Input, receive, update}
use drone_server.Chunk.Rounds.{IsReceived, joined}
use drone_server.Chunk.Sending.{Agrees}
use drone_server.Chunk.Writing.{Message, send_chunks, write_chunk}
use drone_server.Prelude.{
  Bool, List, arith, false, length, ltb, refl, some, true, ℕ, ◌++◌, ◌<◌, ◌^◌, ◌∙◌, ◌≡◌, ◌≤◌,
}
use drone_server.Prelude.Bytes.{Bytes}
use drone_server.Prelude.Outcome.{ok, ◌>>=◌}
use drone_server.Session.{Session, clear_current, current, onto, stream_out, write_message}
use drone_server.Session.Control.{apply_control, handle_control_message}
use drone_server.Session.Senders.{send_control}
use drone_server.Session.Settings.{handle-applied}

-- What a control message on chunk stream 2 says of its times, its stream and its size.
abbrev pub control_message : ℕ → ℕ → Message
control_message type n = record { time = 0; dtime = 0; type_id = type; stream_id = 0; size = n }

control_message-FitsWire :
    (type n : ℕ) → type < 256 → n < 2 ^ 24 → FitsWire (control_message type n)
control_message-FitsWire type n t l = record {
  time_fits = λ e. absurd (omega arith);
  dtime_fits = λ e. absurd (omega arith);
  size_fits = l;
  type_fits = t;
  stream_fits = omega arith;
}

write_message-sent :
    (f csid : ℕ) (m : Message) (msg : Bytes) (force_f0 : Bool) (s : Session) (sent : List Bytes)
    (c : ChunkStream) (n : ℕ)
    → write_chunk f s.input.max_chunk_size m msg force_f0 (stream_out s csid) ≡ ok (sent, c, n)
    → write_message f csid m msg force_f0 s
      ≡ ok (record s { cs_out = update s.cs_out csid (some c); written = onto sent s.written })
unfolding write_message
write_message-sent f csid m msg force_f0 s sent c n e = rw e refl

handle-received :
    (s : Session) (t : ℕ) (m : Message) (msg : Bytes) (c : ChunkStream)
    → current s ≡ some c
    → IsReceived t m msg c
    → handle_control_message s ≡ apply_control m.type_id s msg >>= clear_current
handle-received s t m msg c e d = rw (handle-applied s c e) (rw (d.same_type, d.whole) refl)

-- A message that goes into one chunk is written in the same way whatever the chunk size is.
one_chunk :
    (f p q : ℕ) (m : Message) (msg : Bytes) (force_f0 : Bool) (c : ChunkStream)
    → length msg ≤ p
    → length msg ≤ q
    → write_chunk f p m msg force_f0 c ≡ write_chunk f q m msg force_f0 c
unfolding write_chunk send_chunks
one_chunk f p q m msg force_f0 c hp hq =
    let own : ltb p (length msg) ≡ false = ground (arith, hp) in
    let other : ltb q (length msg) ≡ false = ground (arith, hq) in rw (own, other) refl

-- What the two sessions agree on before the message: the two ends of chunk stream 2, and that the
-- reader is between two chunks. Each has its own chunk size, of 5 bytes or more.
pub record AreLinked (a : Session) (i : Input) (r : ChunkStream) : Type 0 where
  pub fits_own : 5 ≤ a.input.max_chunk_size
  pub fits_other : 5 ≤ i.max_chunk_size
  pub between : i.header_read ≡ false
  pub own_csid : (stream_out a 2).csid ≡ 2
  pub known : i.cs_in 2 ≡ some r
  pub agree : Agrees (stream_out a 2) r

-- A control message that session `a` sends, as session `b` gets and handles it: `a` writes packets, and
-- from them and any bytes after them the loop of `b` makes a message with which `b` does what
-- `apply_control` says.
abbrev pub Controls : ℕ → ℕ → ℕ → Bytes → Session → Session → Bytes → Type 0
Controls f g type msg a b rest =
    (sent : List Bytes) × (a' : Session) × (i : Input) × (send_control f type msg a ≡ ok a')
    × (a'.written ≡ onto sent a.written)
    × (receive g (record b.input { recv_buf = joined sent ++ rest }) ≡ ok (complete, i))
    × (i.recv_buf ≡ rest)
    × ((c : ChunkStream) × (current (record b { input = i }) ≡ some c))
    × (handle_control_message (record b { input = i })
        ≡ apply_control type (record b { input = i }) msg >>= clear_current)

pub send_control-Controls :
    (f g type : ℕ) (msg : Bytes) (a b : Session) (r : ChunkStream) (rest : Bytes)
    → AreLinked a b.input r
    → type < 256
    → length msg ≤ 5
    → length msg < f
    → length msg < g
    → Controls f g type msg a b rest
send_control-Controls f g type msg a b r rest linked t l enough rounds =
    let m = control_message type (length msg) in
    let (sent, c, r', n, fmt, cs', e, got, known', received, timed, others, agrees) =
      receive-write_chunk b.input.max_chunk_size b.input.fresh_fmt b.input.fresh_rem f g
        (stream_out a 2) r m msg rest true b.input.cs_in b.input.fmt b.input.csid
        (omega (arith, linked.fits_other)) (omega (arith, linked.own_csid))
        (rw linked.own_csid linked.known) linked.agree
        (control_message-FitsWire type (length msg) t (omega (arith, l))) refl enough rounds in
    (
      sent,
      record a { cs_out = update a.cs_out 2 (some c); written = onto sent a.written },
      waiting b.input.max_chunk_size b.input.fresh_fmt b.input.fresh_rem cs' fmt
          (stream_out a 2).csid rest,
      write_message-sent f 2 m msg true a sent c n (
          one_chunk f a.input.max_chunk_size b.input.max_chunk_size m msg true (stream_out a 2)
            (omega (arith, l, linked.fits_own)) (omega (arith, l, linked.fits_other))
          ∙ e),
      refl,
      rw linked.between got,
      refl,
      (r', known'),
      handle-received
          (record b {
            input =
                waiting b.input.max_chunk_size b.input.fresh_fmt b.input.fresh_rem cs' fmt
                  (stream_out a 2).csid rest;
          })
          r'.time m msg r' known' received,
    )
