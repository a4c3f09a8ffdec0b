-- ===== src/Media/Conversion.antt =====
-- `chunk_stream_to_media_pkt` of src/rtmp/src/DDS/rtmp/rtmp_stream.cpp, and `cid_from_hex` of
-- src/core/src/DDS/core/client.hpp. `stoul` stands for `std::stoul` with base 16, which gives nothing
-- where it throws. A read past the payload is a fault.
use drone_server.Chunk.{ChunkStream, byte_in}
use drone_server.Media.{
  Codec, MediaPacket, aac, audio, h264, h265, metadata, opus, unknown_codec, unknown_type, video,
  vp8, vp9,
}
use drone_server.Prelude.{
  Bool, Option, [], drop, false, if◌then◌else◌, length, ltb, none, some, true, ℕ, ◌%◌, ◌&&◌, ◌*◌,
  ◌+◌, ◌/◌, ◌==◌, ◌^◌, ◌||◌, ◌∷◌,
}
use drone_server.Prelude.Bytes.{Bytes}
use drone_server.Prelude.Outcome.{Outcome, fault, ok, ◌>>=◌}

-- `s.substr(0, s.find('/'))`: all of it where there is no slash.
abbrev pub before_slash : Bytes → Bytes
before_slash [] = []
before_slash (x ∷ xs) = if x == 0x2f then [] else x ∷ before_slash xs

-- `s.substr(s.find('/') + 1)`: all of it where there is no slash, since `npos + 1` is 0.
abbrev pub has_slash : Bytes → Bool
has_slash [] = false
has_slash (x ∷ xs) = (x == 0x2f) || has_slash xs

abbrev pub after_slash : Bytes → Bytes
after_slash xs = if has_slash xs then drop (length (before_slash xs) + 1) xs else xs

-- The tag byte of a video says the codec in its low half and the frame in its high half.
abbrev pub video_codec : ℕ → Codec
video_codec tag =
    if tag % 16 == 0x07
    then h264
    else if tag % 16 == 0x0c
    then h265
    else if tag % 16 == 0x0e
    then vp8
    else if tag % 16 == 0x0f
    then vp9
    else unknown_codec

abbrev pub is_key_tag : ℕ → Bool
is_key_tag tag = tag / 16 * 16 == 0x10

-- `data[0]`, `data[1]` and the three bytes of the composition time are read whatever they say.
unfoldable pub video_packet : Bytes → MediaPacket → Outcome MediaPacket
video_packet bytes pkt =
    let tag = byte_in bytes 0 in
    let nalu = byte_in bytes 1 in
    if ltb (length bytes) 5
    then fault
    else ok (record pkt {
      type = video;
      codec = video_codec tag;
      seq_header = is_key_tag tag && (nalu == 0);
      key_frame = is_key_tag tag && (nalu == 1);
      pts = pkt.dts + (byte_in bytes 4 * 0x1_0000 + byte_in bytes 3 * 0x100 + byte_in bytes 2);
    })

abbrev pub audio_codec : ℕ → Codec
audio_codec tag =
    if tag / 16 * 16 == 0xa0 then aac else if tag / 16 * 16 == 0x90 then opus else unknown_codec

abbrev pub is_known : Codec → Bool
is_known unknown_codec = false
is_known c = true

-- `data[1]` is read where the codec is one of the two.
unfoldable pub audio_packet : Bytes → MediaPacket → Outcome MediaPacket
audio_packet bytes pkt =
    let codec = audio_codec (byte_in bytes 0) in
    if length bytes == 0
    then fault
    else if is_known codec
    then (if length bytes == 1
        then fault
        else ok (record pkt { type = audio; codec = codec; seq_header = byte_in bytes 1 == 0 }))
    else ok (record pkt { type = audio })

module _ (stoul : Bytes → Option ℕ) where
  unfoldable pub cid_from_hex : Bytes → Outcome ℕ
  cid_from_hex hex = elim (stoul (0x30 ∷ 0x78 ∷ hex)) [ none ↦ fault | some v ↦ ok (v % 2 ^ 32) ]

  -- The packet before its kind is looked at.
  abbrev pub plain_packet : Bytes → ChunkStream → ℕ → MediaPacket
  plain_packet url cs cid = record {
    stream_id = cs.stream_id;
    rtmp_type = cs.type;
    url = url;
    app = before_slash url;
    cid = cid;
    type = unknown_type;
    codec = unknown_codec;
    dts = cs.time;
    pts = cs.time;
    key_frame = false;
    seq_header = false;
    content = cs.content;
  }

  unfoldable pub typed_packet : Bytes → ChunkStream → ℕ → Outcome MediaPacket
  typed_packet url cs cid =
      if cs.type == 9
      then video_packet cs.content (plain_packet url cs cid)
      else if cs.type == 8
      then audio_packet cs.content (plain_packet url cs cid)
      else if cs.type == 18 || cs.type == 15
      then ok (record (plain_packet url cs cid) { type = metadata })
      else ok (plain_packet url cs cid)

  unfoldable pub chunk_stream_to_media_pkt : Bytes → ChunkStream → Outcome MediaPacket
  chunk_stream_to_media_pkt url cs =
      cid_from_hex (after_slash url) >>= λ cid. typed_packet url cs cid
