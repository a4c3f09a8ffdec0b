-- ===== src/Media/Stream.antt =====
-- src/rtmp/src/DDS/rtmp/rtmp_stream.hpp and .cpp: a publisher and its viewers. A session is known by a
-- number; the peers stand in the order in which the hash map is walked, which nothing is said of.
use drone_server.Chunk.{Answer, ChunkStream, complete, refused}
use drone_server.Media.{MediaPacket}
use drone_server.Media.Conversion.{after_slash, chunk_stream_to_media_pkt, cid_from_hex}
use drone_server.Media.GopCache.{GopCache, insert, new_gop_cache, write_cache}
use drone_server.Prelude.{
  Bool, List, Option, [], false, if◌then◌else◌, none, some, true, ℕ, ◌&&◌, ◌++◌, ◌==◌, ◌||◌, ◌∷◌,
}
use drone_server.Prelude.Bytes.{Bytes}
use drone_server.Prelude.Outcome.{Outcome, ok, ◌>>=◌}

-- What a stream does to others, in order.
pub data Effect : Type 0 where
  -- `write_media_packet` of a session
  to_session : ℕ → MediaPacket → Effect
  -- `send_stream_eof` of a session
  stream_eof : ℕ → ℕ → Effect
  -- `media_manager::get().erase`
  erase_media : ℕ → Effect
  -- `demux.write`
  demux_write : MediaPacket → Effect

pub record Stream : Type 0 where
  pub url : Bytes
  pub cid : ℕ
  pub peers : List (ℕ × Bool)
  pub gop : GopCache
  pub publisher : Option ℕ

abbrev pub media_stream_id : ℕ
media_stream_id = 30

module _ (stoul : Bytes → Option ℕ) where
  unfoldable pub new_stream : Bytes → Outcome Stream
  new_stream url = cid_from_hex stoul (after_slash url) >>= λ cid.
      ok (record { url = url; cid = cid; peers = []; gop = new_gop_cache 1; publisher = none })

abbrev pub is_peer : ℕ → List (ℕ × Bool) → Bool
is_peer k [] = false
is_peer k ((j, b) ∷ ps) = (j == k) || is_peer k ps

abbrev pub is_session : ℕ → Option ℕ → Bool
is_session k none = false
is_session k (some j) = j == k

abbrev pub is_some : Option ℕ → Bool
is_some none = false
is_some (some j) = true

-- `peers_.insert(…)`, which leaves an entry that is there.
abbrev pub add_peer : ℕ → List (ℕ × Bool) → List (ℕ × Bool)
add_peer k ps = if is_peer k ps then ps else ps ++ (k, false) ∷ []

unfoldable pub join : ℕ → Bool → Stream → Answer × Stream
join session as_publisher s = if is_some s.publisher && as_publisher then (refused, s) else (
  complete,
  record s {
    peers = add_peer session s.peers;
    publisher = if as_publisher then some session else s.publisher;
  },
)

abbrev pub erase_peer : ℕ → List (ℕ × Bool) → List (ℕ × Bool)
erase_peer k [] = []
erase_peer k ((j, b) ∷ ps) = if j == k then erase_peer k ps else (j, b) ∷ erase_peer k ps

abbrev pub eof_to : List (ℕ × Bool) → List Effect
eof_to [] = []
eof_to ((j, b) ∷ ps) = stream_eof j media_stream_id ∷ eof_to ps

unfoldable pub leave : ℕ → Stream → Stream × List Effect
leave session s =
    let peers = erase_peer session s.peers in
    if is_session session s.publisher
    then (record s { peers = peers; publisher = none }, erase_media s.cid ∷ eof_to peers)
    else (record s { peers = peers }, [])

abbrev pub all_to : ℕ → List MediaPacket → List Effect
all_to k [] = []
all_to k (p ∷ ps) = to_session k p ∷ all_to k ps

-- What the loop of `send` does for one peer, and for all.
abbrev pub effects_for : ℕ → GopCache → MediaPacket → ℕ × Bool → List Effect
effects_for publisher gop pkt (j, started) =
    if j == publisher
    then []
    else if started
    then to_session j pkt ∷ []
    else all_to j (write_cache gop)

abbrev pub fan_out : ℕ → GopCache → MediaPacket → List (ℕ × Bool) → List Effect
fan_out publisher gop pkt [] = []
fan_out publisher gop pkt (p ∷ ps) = effects_for publisher gop pkt p ++ fan_out publisher gop pkt ps

abbrev pub start_peers : ℕ → List (ℕ × Bool) → List (ℕ × Bool)
start_peers publisher [] = []
start_peers publisher ((j, started) ∷ ps) =
    (j, if j == publisher then started else true) ∷ start_peers publisher ps

module _ (stoul : Bytes → Option ℕ) where
  unfoldable pub send : ℕ → ChunkStream → Stream → Outcome (Stream × List Effect)
  send session cs s =
      if is_session session s.publisher
      then (chunk_stream_to_media_pkt stoul s.url cs >>= λ pkt. insert pkt s.gop >>= λ (gop, n).
          ok (
            record s { gop = gop; peers = start_peers session s.peers },
            demux_write pkt ∷ fan_out session gop pkt s.peers,
          ))
      else ok (s, [])
