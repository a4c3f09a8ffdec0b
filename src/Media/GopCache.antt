-- ===== src/Media/GopCache.antt =====
-- src/rtmp/src/DDS/rtmp/gop_cache.cpp and .hpp: the packets that a new viewer gets first.
use drone_server.Media.{MediaPacket, audio, metadata, unknown_type, video}
use drone_server.Prelude.{
  List, Option, [], if◌then◌else◌, length, none, some, ℕ, ◌%◌, ◌++◌, ◌+◌, ◌==◌, ◌^◌, ◌∷◌,
}
use drone_server.Prelude.Outcome.{Outcome, fault, ok, ◌>>=◌}

pub record GopCache : Type 0 where
  pub pkts : List MediaPacket
  pub video_header_pkt : Option MediaPacket
  pub audio_header_pkt : Option MediaPacket
  pub metadata_header_pkt : Option MediaPacket
  pub min_gop : ℕ
  pub gop_count : ℕ

abbrev pub new_gop_cache : ℕ → GopCache
new_gop_cache min_gop = record {
  pkts = [];
  video_header_pkt = none;
  audio_header_pkt = none;
  metadata_header_pkt = none;
  min_gop = min_gop;
  gop_count = 0;
}

-- `pkts.push_back(pkt); return pkts.size();`
abbrev pub push_back : MediaPacket → GopCache → Outcome (GopCache × ℕ)
push_back pkt c = ok (record c { pkts = c.pkts ++ pkt ∷ [] }, length (c.pkts ++ pkt ∷ []))

-- A key frame: the count goes up, and a multiple of `min_gop_` empties the cache. A remainder by 0 is
-- a fault.
abbrev pub key_packet : MediaPacket → GopCache → Outcome (GopCache × ℕ)
key_packet pkt c =
    if c.min_gop == 0
    then fault
    else if (c.gop_count + 1) % 2 ^ 32 % c.min_gop == 0
    then push_back pkt (record c { gop_count = (c.gop_count + 1) % 2 ^ 32; pkts = [] })
    else push_back pkt (record c { gop_count = (c.gop_count + 1) % 2 ^ 32 })

unfoldable pub insert : MediaPacket → GopCache → Outcome (GopCache × ℕ)
insert pkt c = elim pkt.type [
  | video ↦
      if pkt.seq_header
      then ok (record c { video_header_pkt = some pkt }, length c.pkts)
      else if pkt.key_frame
      then key_packet pkt c
      else push_back pkt c
  | audio ↦
      if pkt.seq_header
      then ok (record c { audio_header_pkt = some pkt }, length c.pkts)
      else push_back pkt c
  | metadata ↦ ok (record c { metadata_header_pkt = some pkt }, length c.pkts)
  | unknown_type ↦ push_back pkt c
]

abbrev pub packet_of : Option MediaPacket → List MediaPacket
packet_of none = []
packet_of (some pkt) = pkt ∷ []

-- The packets that `write` passes to `write_media_packet` of the session, in order.
unfoldable pub write_cache : GopCache → List MediaPacket
write_cache c =
    packet_of c.metadata_header_pkt
    ++ (packet_of c.video_header_pkt ++ (packet_of c.audio_header_pkt ++ c.pkts))

-- The packets of a stream, one after the other.
unfoldable pub insert_all : List MediaPacket → GopCache → Outcome GopCache
insert_all [] c = ok c
insert_all (pkt ∷ pkts) c = insert pkt c >>= λ (c, n). insert_all pkts c
