-- ===== src/Session/Examples.antt =====
-- Sessions of rtmp_session.cpp on concrete input.
use drone_server.Chunk.{ChunkStream, header}
use drone_server.Chunk.Sending.{Agrees}
use drone_server.Chunk.Writing.{Message}
use drone_server.Prelude.{
  Bool, Option, [], arith, false, if◌then◌else◌, none, refl, some, true, ℕ, ◌==◌, ◌∷◌, ◌≡◌,
}
use drone_server.Prelude.Bytes.{Bytes, number_of}
use drone_server.Prelude.Outcome.{Yields, fault, ok, out_of_fuel}
use drone_server.Session.{Session, connect, stream_out, write_message}
use drone_server.Session.Agreement.{AreLinked}
use drone_server.Session.Control.{handle_control_message}
use drone_server.Session.Faults.{handle_control_message-zero_size}
use drone_server.Session.Outcomes.{Leads, send-handle_control_message}
use drone_server.Session.Senders.{send_set_chunk_size, send_set_peer_bandwidth, send_window_ack}
use drone_server.Session.Settings.{
  IsHandled, handle_control_message-IsHandled, handle_control_message-abort_self,
}

-- A stream that has sent and read nothing, and the same with a message of a type.
abbrev pub fresh_stream : ChunkStream
fresh_stream = record {
  time = 0;
  dtime = 0;
  len = 0;
  stream_id = 0;
  type = 0;
  ext_ts = false;
  fmt = 0;
  csid = 2;
  content = [];
  rem = 0;
  ready = false;
  phase = header;
}

abbrev with_message : ℕ → Bytes → ChunkStream
with_message type bytes = record fresh_stream { type = type; content = bytes; ready = true }

abbrev only : ℕ → ChunkStream → ℕ → Option ChunkStream
only csid c k = if csid == k then some c else none

abbrev session_on : ChunkStream → Session
session_on c = record {
  input = record {
    recv_buf = [];
    max_chunk_size = 128;
    header_read = false;
    csid = 2;
    fmt = 0;
    cs_in = only 2 c;
    fresh_fmt = 0;
    fresh_rem = 0;
  };
  cs_out = only 2 fresh_stream;
  state = connect;
  window_size = 2500000;
  peer_bandwidth = 2500000;
  peer_bandwidth_type = 2;
  ack_recv = 0;
  ack_recv_total = 0;
  app = [];
  cid = [];
  url = [];
  hs = record {
    c0_version = 3;
    c1_time = 0;
    c1_zero = 0;
    old = true;
    m = [];
    cdigest = [];
    sdigest = [];
  };
  written = [];
}

abbrev pub idle_session : Session
idle_session = session_on fresh_stream

pub fresh_stream-Agrees : Agrees fresh_stream fresh_stream
fresh_stream-Agrees = (
  record { len_synced = refl; type_synced = refl; stream_synced = refl },
  record {
    no_extended = refl;
    at_header = refl;
    no_content = refl;
    not_ready = refl;
    nothing_left = refl;
  },
  refl,
)

-- A session after the command connect, whose peer still reads chunks of 128 bytes.
abbrev wide_session : Session
wide_session = record idle_session { input = record idle_session.input { max_chunk_size = 4096 } }

wide_session-AreLinked : AreLinked wide_session idle_session.input fresh_stream
unfolding stream_out
wide_session-AreLinked = record {
  fits_own = omega arith;
  fits_other = omega arith;
  between = refl;
  own_csid = refl;
  known = refl;
  agree = fresh_stream-Agrees;
}

send-handle_control_message_example :
    Leads 6 6 wide_session idle_session
      (9 ∷ [])
      (send_set_chunk_size 6 wide_session)
      (λ b'. b'.input.max_chunk_size ≡ 4096)
    × Leads 6 6 wide_session idle_session
        (9 ∷ [])
        (send_window_ack 6 wide_session)
        (λ b'. b'.window_size ≡ 2500000)
    × Leads 6 6 wide_session idle_session
        (9 ∷ [])
        (send_set_peer_bandwidth 6 wide_session)
        (λ b'. (b'.peer_bandwidth ≡ 2500000) × (b'.peer_bandwidth_type ≡ 2))
send-handle_control_message_example =
    send-handle_control_message 6 6 wide_session idle_session fresh_stream (9 ∷ [])
      wide_session-AreLinked (omega arith) (omega arith)

abbrev pong : ChunkStream
pong = with_message 4 (0 ∷ 7 ∷ 0 ∷ 0 ∷ 0 ∷ 1 ∷ 0 ∷ 0 ∷ 0 ∷ 0 ∷ [])

handle_control_message-IsHandled_example :
    Yields (IsHandled (session_on pong) pong) (handle_control_message (session_on pong))
handle_control_message-IsHandled_example =
    handle_control_message-IsHandled (session_on pong) pong refl (omega arith)
      (λ e. absurd (omega (arith, e)))

abbrev abort_two : ChunkStream
abort_two = with_message 2 (0 ∷ 0 ∷ 0 ∷ 2 ∷ [])

handle_control_message-abort_self_example : handle_control_message (session_on abort_two) ≡ fault
unfolding number_of
handle_control_message-abort_self_example =
    handle_control_message-abort_self (session_on abort_two) abort_two refl refl (omega arith) refl

abbrev size_zero : ChunkStream
size_zero = with_message 1 (0 ∷ 0 ∷ 0 ∷ 0 ∷ [])

handle_control_message-zero_size_example :
    (s' : Session) × (handle_control_message (session_on size_zero) ≡ ok s')
    × ((f csid x : ℕ) (m : Message) (xs : Bytes) (force_f0 : Bool)
        → write_message f csid m (x ∷ xs) force_f0 s' ≡ out_of_fuel)
handle_control_message-zero_size_example =
    handle_control_message-zero_size (session_on size_zero) size_zero [] refl refl refl
