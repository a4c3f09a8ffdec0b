-- ===== src/Session.antt =====
-- src/rtmp/src/DDS/rtmp/rtmp_session.hpp and .cpp: the state of a session, sending on it, and the
-- stream that the current message is in. Session/Control has the control messages.
pub mod Control
pub mod Senders
pub mod Settings
pub mod Agreement
pub mod Outcomes
pub mod Faults
pub mod World
pub mod Replies
pub mod Commands
pub mod Handling
pub mod Sends
pub mod Delivers
pub mod Branches
pub mod Transitions
pub mod Steadiness
pub mod Rounds
pub mod Progression
pub mod Sharing
pub mod Soundness
pub mod Commanding
pub mod Delivery
pub mod Reading
pub mod Receipt
pub mod Arrival
pub mod Greeting
pub mod Publishing
pub mod Publishers
pub mod Creating
pub mod Interleaving
pub mod Turns
pub mod Servers
mod Examples
mod ServerExamples
mod CommandExamples
use drone_server.Chunk.{ChunkStream, clear_stream, new_chunk_stream}
use drone_server.Chunk.Receiving.{Input, update}
use drone_server.Chunk.Writing.{Message, write_chunk}
use drone_server.Handshake.{Handshake}
use drone_server.Prelude.{Bool, List, Option, [], none, some, ℕ, ◌∷◌}
use drone_server.Prelude.Bytes.{Bytes}
use drone_server.Prelude.Outcome.{Outcome, fault, ok, ◌>>=◌}

-- enum state
pub data State : Type 0 where
  init handshake_c2 connect create_stream publish_play media_transfer close : State

pub record Session : Type 0 where
  pub input : Input
  pub cs_out : ℕ → Option ChunkStream
  pub state : State
  pub window_size : ℕ
  pub peer_bandwidth : ℕ
  pub peer_bandwidth_type : ℕ
  pub ack_recv : ℕ
  pub ack_recv_total : ℕ
  pub app : Bytes
  pub cid : Bytes
  pub url : Bytes
  pub hs : Handshake
  -- The packets handed to `async_write`, the last one first.
  pub written : List Bytes

-- `if (cs_out.count(csid) == 0) cs_out[csid] = …`
unfoldable pub stream_out : Session → ℕ → ChunkStream
stream_out s csid = elim (s.cs_out csid) [
  | none ↦ new_chunk_stream s.input.fresh_fmt s.input.fresh_rem csid
  | some c ↦ c
]

abbrev pub onto : List Bytes → List Bytes → List Bytes
onto [] written = written
onto (p ∷ ps) written = onto ps (p ∷ written)

-- `rtmp_session::write_chunk`; `csid` is 16 bits.
unfoldable pub write_message : ℕ → ℕ → Message → Bytes → Bool → Session → Outcome Session
write_message fuel csid m msg force_f0 s =
    write_chunk fuel s.input.max_chunk_size m msg force_f0 (stream_out s csid) >>= λ (sent, c, n).
    ok (record s { cs_out = update s.cs_out csid (some c); written = onto sent s.written })

-- The stream `cs_in[csid_]`, which is null where there is none.
abbrev pub current : Session → Option ChunkStream
current s = s.input.cs_in s.input.csid

abbrev pub set_stream : Session → Option ChunkStream → Session
set_stream s c = record s { input = record s.input { cs_in = update s.input.cs_in s.input.csid c } }

-- `cs_in[csid_]->clear()`
unfoldable pub clear_current : Session → Outcome Session
clear_current s = elim (current s) [
  | none ↦ fault
  | some c ↦ ok (set_stream s (some (clear_stream c)))
]
