-- ===== src/Session/Outcomes.antt =====
-- The three settings that rtmp_session_control_message.cpp sends, and the session that gets them.
use drone_server.Chunk.{ChunkStream, clear_stream, complete}
use drone_server.Chunk.Receiving.{Input, receive}
use drone_server.Chunk.Rounds.{joined}
use drone_server.Prelude.{
  List, Option, [], arith, length-append, refl, some, ℕ, ◌%◌, ◌++◌, ◌<◌, ◌^◌, ◌∙◌, ◌∷◌, ◌≡◌,
}
use drone_server.Prelude.Bytes.{Bytes, big_endian, length-big_endian, number_of}
use drone_server.Prelude.Outcome.{Outcome, ok}
use drone_server.Session.{Session, current, onto, set_stream}
use drone_server.Session.Agreement.{AreLinked, Controls, send_control-Controls}
use drone_server.Session.Control.{apply_control, handle_control_message}
use drone_server.Session.Senders.{
  bandwidth_bytes, send_control, send_set_chunk_size, send_set_peer_bandwidth, send_window_ack,
}
use drone_server.Session.Settings.{clear_current-present}

-- What the session on the other side has after a control message: a result of which `P` holds.
abbrev pub Leads : ℕ → ℕ → Session → Session → Bytes → Outcome Session → (Session → Type 0) → Type 0
Leads f g a b rest sends P =
    (sent : List Bytes) × (a' : Session) × (i : Input) × (b' : Session) × (sends ≡ ok a')
    × (a'.written ≡ onto sent a.written)
    × (receive g (record b.input { recv_buf = joined sent ++ rest }) ≡ ok (complete, i))
    × (handle_control_message (record b { input = i }) ≡ ok b')
    × (b'.input.recv_buf ≡ rest)
    × P b'

Controls-Leads :
    (f g type : ℕ) (msg : Bytes) (a b : Session) (rest : Bytes) (change : Session → Session)
    (P : Session → Type 0)
    → Controls f g type msg a b rest
    → ((s : Session)
        → (apply_control type s msg ≡ ok (change s))
          × (current (change s) ≡ current s)
          × ((change s).input.recv_buf ≡ s.input.recv_buf)
          × ((c : Option ChunkStream) → P (set_stream (change s) c)))
    → Leads f g a b rest (send_control f type msg a) P
Controls-Leads f g type msg a b rest change P (sent, a', i, e, w, got, left, (c, known), handled)
      changes =
    let (applied, kept, same, holds) = changes (record b { input = i }) in
    (
      sent,
      a',
      i,
      set_stream (change (record b { input = i })) (some (clear_stream c)),
      e,
      w,
      got,
      handled
          ∙ rw applied (clear_current-present (change (record b { input = i })) c (kept ∙ known)),
      same ∙ left,
      holds (some (clear_stream c)),
    )

apply_chunk_size :
    (s : Session) (n : ℕ)
    → apply_control 1 s (big_endian 4 n)
      ≡ ok (record s { input = record s.input { max_chunk_size = n % 2 ^ 32 } })
unfolding big_endian number_of
apply_chunk_size s n = ground arith

apply_window :
    (s : Session) (n : ℕ)
    → apply_control 5 s (big_endian 4 n) ≡ ok (record s { window_size = n % 2 ^ 32 })
unfolding big_endian number_of
apply_window s n = ground arith

apply_bandwidth :
    (s : Session) (n kind : ℕ)
    → apply_control 6 s (big_endian 4 n ++ kind ∷ [])
      ≡ ok (record s { peer_bandwidth = n % 2 ^ 32; peer_bandwidth_type = kind })
unfolding big_endian number_of
apply_bandwidth s n kind = ground arith

-- When session `a` sends its chunk size, its window size or its peer bandwidth to session `b`, then `b`
-- gets the packets, handles the message without a fault and has the setting that `a` has, to 32 bits,
-- with the bytes after the packets still to be read. Each of the two chunk sizes is 5 or more, and they
-- need not be equal; the two ends of chunk stream 2 agree, `b` knows this stream and is between two
-- chunks, and the fuel is more than five rounds on either side.
pub send-handle_control_message :
    (f g : ℕ) (a b : Session) (r : ChunkStream) (rest : Bytes)
    → AreLinked a b.input r
    → 5 < f
    → 5 < g
    → Leads f g a b rest
        (send_set_chunk_size f a)
        (λ b'. b'.input.max_chunk_size ≡ a.input.max_chunk_size % 2 ^ 32)
      × Leads f g a b rest (send_window_ack f a) (λ b'. b'.window_size ≡ a.window_size % 2 ^ 32)
      × Leads f g a b rest (send_set_peer_bandwidth f a) (λ b'.
        (b'.peer_bandwidth ≡ a.peer_bandwidth % 2 ^ 32)
        × (b'.peer_bandwidth_type ≡ a.peer_bandwidth_type))
unfolding send_set_chunk_size send_window_ack send_set_peer_bandwidth
send-handle_control_message f g a b r rest linked lf lg =
    let size = a.input.max_chunk_size in
    let four = length-big_endian 4 size in
    let window_four = length-big_endian 4 a.window_size in
    let five = length-append (big_endian 4 a.peer_bandwidth) (a.peer_bandwidth_type ∷ []) in
    let bandwidth_four = length-big_endian 4 a.peer_bandwidth in
    (
      Controls-Leads f g 1 (big_endian 4 size) a b rest
          (λ s. record s { input = record s.input { max_chunk_size = size % 2 ^ 32 } }) _
          (send_control-Controls f g 1 (big_endian 4 size) a b r rest linked (omega arith)
            (omega arith) (omega arith) (omega arith))
          (λ s. (apply_chunk_size s size, refl, refl, λ c. refl)),
      Controls-Leads f g 5 (big_endian 4 a.window_size) a b rest
          (λ s. record s { window_size = a.window_size % 2 ^ 32 }) _
          (send_control-Controls f g 5 (big_endian 4 a.window_size) a b r rest linked (omega arith)
            (omega arith) (omega arith) (omega arith))
          (λ s. (apply_window s a.window_size, refl, refl, λ c. refl)),
      Controls-Leads f g 6 (bandwidth_bytes a) a b rest
          (λ s. record s {
            peer_bandwidth = a.peer_bandwidth % 2 ^ 32;
            peer_bandwidth_type = a.peer_bandwidth_type;
          })
          _
          (send_control-Controls f g 6 (bandwidth_bytes a) a b r rest linked (omega arith)
            (omega arith) (omega arith) (omega arith))
          (λ s. (
            apply_bandwidth s a.peer_bandwidth a.peer_bandwidth_type,
            refl,
            refl,
            λ c. (refl, refl),
          )),
    )
