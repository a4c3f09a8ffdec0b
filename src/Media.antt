-- ===== src/Media.antt =====
-- src/rtmp/src/DDS/rtmp/media_packet.hpp: the packets that a stream passes on. Media/GopCache and
-- Media/Stream have the cache and the stream.
pub mod GopCache
pub mod Replay
pub mod Stream
pub mod Conversion
pub mod Membership
pub mod History
pub mod Fanout
mod Examples
use drone_server.Prelude.{Bool, ℕ}
use drone_server.Prelude.Bytes.{Bytes}

pub data PacketType : Type 0 where
  unknown_type video audio metadata : PacketType

pub data Codec : Type 0 where
  unknown_codec h264 h265 vp8 vp9 aac opus mp3 : Codec

-- The fields of `rtmp` stand beside the others.
pub record MediaPacket : Type 0 where
  pub stream_id : ℕ
  pub rtmp_type : ℕ
  pub url : Bytes
  pub app : Bytes
  pub cid : ℕ
  pub type : PacketType
  pub codec : Codec
  pub dts : ℕ
  pub pts : ℕ
  pub key_frame : Bool
  pub seq_header : Bool
  pub content : Bytes
