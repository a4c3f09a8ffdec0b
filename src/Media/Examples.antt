-- ===== src/Media/Examples.antt =====
-- A stream of rtmp_stream.cpp on concrete input.
use drone_server.Chunk.{ChunkStream, header}
use drone_server.Media.{Codec, MediaPacket, PacketType, h264, video}
use drone_server.Media.Conversion.{
  chunk_stream_to_media_pkt, cid_from_hex, typed_packet, video_packet,
}
use drone_server.Media.Fanout.{Converts, received, received-send_all, send_all}
use drone_server.Media.GopCache.{insert_all, new_gop_cache, write_cache}
use drone_server.Media.History.{Reachable-IsValid, joins, leaves, made, stepped}
use drone_server.Media.Membership.{IsValid, some-same}
use drone_server.Media.Replay.{Holds, replay, write_cache-insert_all}
use drone_server.Media.Stream.{Stream, join, leave, new_stream}
use drone_server.Prelude.{
  Bool, Option, [], arith, false, length, none, refl, some, true, ℕ, ◌++◌, ◌-◌, ◌∷◌, ◌≡◌,
}
use drone_server.Prelude.Bytes.{Bytes}
use drone_server.Prelude.Outcome.{Yields, ok}

-- In place of `std::stoul`: the last character as a digit.
abbrev last_digit : Bytes → Option ℕ
last_digit [] = none
last_digit (x ∷ []) = some (x - 0x30)
last_digit (x ∷ xs) = last_digit xs

-- "a/7"
abbrev stream_url : Bytes
stream_url = 0x61 ∷ 0x2f ∷ 0x37 ∷ []

abbrev message_of : ℕ → Bytes → ChunkStream
message_of type bytes = record {
  time = 40;
  dtime = 0;
  len = length bytes;
  stream_id = 30;
  type = type;
  ext_ts = false;
  fmt = 0;
  csid = 6;
  content = bytes;
  rem = 0;
  ready = true;
  phase = header;
}

-- The packet that each message is converted to.
abbrev packet_for : PacketType → Codec → ℕ → Bool → Bool → Bytes → MediaPacket
packet_for type codec rtmp_type key seq bytes = record {
  stream_id = 30;
  rtmp_type = rtmp_type;
  url = stream_url;
  app = 0x61 ∷ [];
  cid = 7;
  type = type;
  codec = codec;
  dts = 40;
  pts = 40;
  key_frame = key;
  seq_header = seq;
  content = bytes;
}

abbrev key_bytes : Bytes
key_bytes = 0x17 ∷ 1 ∷ 0 ∷ 0 ∷ 0 ∷ []

abbrev inter_bytes : Bytes
inter_bytes = 0x27 ∷ 1 ∷ 0 ∷ 0 ∷ 0 ∷ []

abbrev key_packet_7 : MediaPacket
key_packet_7 = packet_for video h264 9 true false key_bytes

abbrev inter_packet_7 : MediaPacket
inter_packet_7 = packet_for video h264 9 false false inter_bytes

-- Session 1 publishes and session 2 has joined.
abbrev two_sessions : Stream
two_sessions = record {
  url = stream_url;
  cid = 7;
  peers = (1, false) ∷ (2, false) ∷ [];
  gop = new_gop_cache 1;
  publisher = some 1;
}

two_sessions-IsValid : IsValid two_sessions
two_sessions-IsValid = record {
  distinct = (refl, (refl, tt));
  publisher_joined = λ k h. ground (arith, some-same 1 k h);
  one_gop = refl;
}

two_sessions-Holds : Holds (new_gop_cache 1) [] (new_gop_cache 1)
two_sessions-Holds = record {
  pkts_held = refl;
  video_held = refl;
  audio_held = refl;
  metadata_held = refl;
  same_min_gop = refl;
}

conversion :
    Converts last_digit stream_url
      (message_of 9 key_bytes ∷ message_of 9 inter_bytes ∷ [])
      (key_packet_7 ∷ inter_packet_7 ∷ [])
unfolding chunk_stream_to_media_pkt cid_from_hex typed_packet video_packet
conversion = (refl, (refl, tt))

received-send_all_example :
    Yields
      (λ (s', effects).
        received 2 effects ≡ replay ([] ++ key_packet_7 ∷ []) ++ inter_packet_7 ∷ [])
      (send_all last_digit 1 (message_of 9 key_bytes ∷ message_of 9 inter_bytes ∷ []) two_sessions)
received-send_all_example =
    received-send_all last_digit 1 2 (message_of 9 key_bytes) (message_of 9 inter_bytes ∷ [])
      key_packet_7 [] (inter_packet_7 ∷ []) two_sessions refl
      (record { valid = two_sessions-IsValid; publishes = refl; watches = refl }) two_sessions-Holds
      conversion

write_cache-insert_all_example :
    Yields
      (λ c. write_cache c ≡ replay (inter_packet_7 ∷ key_packet_7 ∷ inter_packet_7 ∷ []))
      (insert_all (inter_packet_7 ∷ key_packet_7 ∷ inter_packet_7 ∷ []) (new_gop_cache 1))
write_cache-insert_all_example =
    write_cache-insert_all (inter_packet_7 ∷ key_packet_7 ∷ inter_packet_7 ∷ [])

abbrev new_7 : Stream
new_7 = record { url = stream_url; cid = 7; peers = []; gop = new_gop_cache 1; publisher = none }

new_7-made : new_stream last_digit stream_url ≡ ok new_7
unfolding new_stream cid_from_hex
new_7-made = refl

Reachable-IsValid_example : IsValid (leave 2 (join 2 false (join 1 true new_7).1).1).0
Reachable-IsValid_example =
    Reachable-IsValid last_digit (leave 2 (join 2 false (join 1 true new_7).1).1).0 (
      stepped (join 2 false (join 1 true new_7).1).1
        (leave 2 (join 2 false (join 1 true new_7).1).1).0
        (stepped (join 1 true new_7).1 (join 2 false (join 1 true new_7).1).1
          (stepped new_7 (join 1 true new_7).1 (made stream_url new_7 new_7-made)
            (joins 1 true new_7))
          (joins 2 false (join 1 true new_7).1))
        (leaves 2 (join 2 false (join 1 true new_7).1).1))
