-- ===== src/Session/ServerExamples.antt =====
-- A server of rtmp_session.cpp with a session that publishes.
use drone_server.Amf0.{put}
use drone_server.Amf0.Reading.{expect_marker, read_amf0_string, read_null, read_number}
use drone_server.Amf0.Writing.{write, write_object_end}
use drone_server.Buffer.{
  read_1byte, read_2bytes, read_8bytes, read_string, require, write_1byte, write_2bytes,
  write_8bytes, write_string,
}
use drone_server.Chunk.{
  new_chunk_stream, read_f0, read_header, read_header_of, read_payload, take_payload,
}
use drone_server.Chunk.Receiving.{
  read_basic_header, read_chunk, read_chunk_stream, stream_of, update,
}
use drone_server.Chunk.Writing.{send_chunks, write_chunk}
use drone_server.Media.Conversion.{cid_from_hex}
use drone_server.Media.GopCache.{new_gop_cache}
use drone_server.Media.Stream.{Stream, leave, new_stream}
use drone_server.Prelude.{Option, [], false, none, refl, some, true, ℕ, ◌∷◌, ◌≡◌, ◌≤◌}
use drone_server.Prelude.Bytes.{Bytes, big_endian, bytes_eq}
use drone_server.Prelude.Outcome.{Outcome, Permits, fault, ok, out_of_fuel}
use drone_server.Session.{Session, clear_current, media_transfer, publish_play, write_message}
use drone_server.Session.Commands.{
  find_stream, handle_command_message, join_stream, next_name, next_null, next_number, next_string,
  on_publish, parse_command, run_command,
}
use drone_server.Session.Delivery.{deliver, deliver_action}
use drone_server.Session.Handling.{
  count_message, dispatch, handle_chunk_stream, handle_chunks, handle_message, handle_rounds,
}
use drone_server.Session.Interleaving.{
  Server, ServerRun, Turn, after_turn, breaks_off, reads_bytes, started, world_of,
}
use drone_server.Session.Progression.{Progresses, handle_chunks-Progresses, rank}
use drone_server.Session.Reading.{close_connection, handle, handle_in, on_read, with_handshake}
use drone_server.Session.Replies.{send_on_status, status_info, write_values}
use drone_server.Session.Senders.{send_stream_begin, send_stream_eof}
use drone_server.Session.Servers.{ServerRun-IsSound, Turn-rank}
use drone_server.Session.Sharing.{IsSound}
use drone_server.Session.World.{World, leave_stream, on_close, update_stream}

-- Whatever is not hexadecimal is refused.
abbrev pub read_two : Bytes → Option ℕ
read_two s = some 0xAB

-- No digest is ever made.
abbrev no_hmac : Bytes → Bytes → Option Bytes
no_hmac key b = none

-- A session that may publish or play.
abbrev pub ready_session : Session
ready_session = record {
  input = record {
    recv_buf = [];
    max_chunk_size = 4096;
    header_read = false;
    csid = 0;
    fmt = 0;
    cs_in = λ k. none;
    fresh_fmt = 0;
    fresh_rem = 0;
  };
  cs_out = λ k. none;
  state = publish_play;
  window_size = 2500000;
  peer_bandwidth = 2500000;
  peer_bandwidth_type = 2;
  ack_recv = 0;
  ack_recv_total = 0;
  app = [];
  cid = [];
  url = [];
  hs = record {
    c0_version = 3;
    c1_time = 0;
    c1_zero = 0;
    old = true;
    m = [];
    cdigest = [];
    sdigest = [];
  };
  written = [];
}

-- The command publish, of number 0, for the stream ab of live, in one chunk.
abbrev pub publish_command : Bytes
publish_command =
    4 ∷ 0 ∷ 0 ∷ 0 ∷ 0 ∷ 0 ∷ 32 ∷ 20 ∷ 1 ∷ 0 ∷ 0 ∷ 0 ∷ 2 ∷ 0 ∷ 7 ∷ b'p' ∷ b'u' ∷ b'b' ∷ b'l' ∷ b'i'
    ∷ b's' ∷ b'h' ∷ 0 ∷ 0 ∷ 0 ∷ 0 ∷ 0 ∷ 0 ∷ 0 ∷ 0 ∷ 0 ∷ 5 ∷ 2 ∷ 0 ∷ 2 ∷ b'a' ∷ b'b' ∷ 2 ∷ 0 ∷ 4
    ∷ b'l' ∷ b'i' ∷ b'v' ∷ b'e' ∷ []

abbrev pub ready_server : Server
ready_server = record { sessions = λ k. ready_session; streams = λ url. none }

abbrev published : Outcome World
published = on_read read_two no_hmac 300 0 10 none publish_command (world_of 0 ready_server)

abbrev pub publish_url : Bytes
publish_url = b'l' ∷ b'i' ∷ b'v' ∷ b'e' ∷ b'/' ∷ b'a' ∷ b'b' ∷ []

-- Session 0 publishes and session 1 watches.
abbrev pub watched_stream : Stream
watched_stream = record {
  url = publish_url;
  cid = 0xAB;
  peers = (0, false) ∷ (1, false) ∷ [];
  gop = new_gop_cache 1;
  publisher = some 0;
}

abbrev pub busy_server : Server
busy_server = record {
  sessions = λ k. record ready_session { state = media_transfer; url = publish_url };
  streams = update_stream (λ url. none) publish_url (some watched_stream);
}

-- The publisher's connection breaks: the viewer is told.
abbrev world_left : World
world_left = close_connection (world_of 0 busy_server)

abbrev sessions_after : Outcome (ℕ → Session) → ℕ → Session
sessions_after (ok f) = f
sessions_after fault = busy_server.sessions
sessions_after out_of_fuel = busy_server.sessions

abbrev sessions_left : ℕ → Session
sessions_left =
    sessions_after
      (deliver 10 world_left.actions (update busy_server.sessions 0 world_left.session))

abbrev left_server : Server
left_server = record { sessions = sessions_left; streams = world_left.streams }

sessions_left-delivered :
    deliver 10 world_left.actions (update busy_server.sessions 0 world_left.session)
    ≡ ok sessions_left
unfolding deliver deliver_action close_connection on_close leave_stream leave send_stream_eof
    write_message bytes_eq write_chunk send_chunks big_endian
sessions_left-delivered = refl

busy_server-Turn : Turn read_two no_hmac 10 busy_server left_server
busy_server-Turn = breaks_off 0 sessions_left sessions_left-delivered

Turn-rank_example : 5 ≤ rank (left_server.sessions 0).state
Turn-rank_example = Turn-rank read_two no_hmac 10 busy_server-Turn 0

-- The command has arrived.
abbrev pub commanded : World
commanded = with_handshake (world_of 0 ready_server) ready_session.hs publish_command

handle_chunks-Progresses_example :
    Permits
      (λ out. Progresses publish_play out.1.session.state × (4 ≤ rank out.1.session.state))
      (handle_chunks read_two 300 0 10 commanded)
handle_chunks-Progresses_example = handle_chunks-Progresses read_two 300 0 10 commanded

-- The whole turn in which session 0 publishes.
abbrev world_in : Outcome World → World
world_in (ok w) = w
world_in fault = world_of 0 ready_server
world_in out_of_fuel = world_of 0 ready_server

published_read : published ≡ ok (world_in published)
unfolding on_read handle handle_in handle_chunks handle_rounds read_chunk_stream read_chunk
    read_header stream_of read_basic_header new_chunk_stream read_header_of read_f0 read_payload
    take_payload handle_message count_message handle_chunk_stream dispatch handle_command_message
    clear_current parse_command next_string read_amf0_string expect_marker require read_1byte
    read_2bytes read_string next_number read_number read_8bytes run_command bytes_eq on_publish
    next_name next_null read_null join_stream find_stream new_stream cid_from_hex send_stream_begin
    write_message write_chunk send_chunks big_endian send_on_status write_values write status_info
    put write_object_end write_1byte write_2bytes write_string write_8bytes
published_read = refl

published_delivered :
    deliver 300
      (world_in published).actions
      (update ready_server.sessions 0 (world_in published).session)
    ≡ ok (update ready_server.sessions 0 (world_in published).session)
unfolding on_read handle handle_in handle_chunks handle_rounds read_chunk_stream read_chunk
    read_header stream_of read_basic_header new_chunk_stream read_header_of read_f0 read_payload
    take_payload handle_message count_message handle_chunk_stream dispatch handle_command_message
    clear_current parse_command next_string read_amf0_string expect_marker require read_1byte
    read_2bytes read_string next_number read_number read_8bytes run_command bytes_eq on_publish
    next_name next_null read_null join_stream find_stream new_stream cid_from_hex send_stream_begin
    write_message write_chunk send_chunks big_endian send_on_status write_values write status_info
    put write_object_end write_1byte write_2bytes write_string write_8bytes deliver deliver_action
published_delivered = refl

publishing_server : ServerRun read_two no_hmac 300 (record {
  sessions = update ready_server.sessions 0 (world_in published).session;
  streams = (world_in published).streams;
})
publishing_server = after_turn (started ready_server.sessions) (
    reads_bytes 0 0 10 none publish_command (world_in published)
      (update ready_server.sessions 0 (world_in published).session) published_read
      published_delivered)

ServerRun-IsSound_example : IsSound (world_in published).streams
ServerRun-IsSound_example = ServerRun-IsSound read_two no_hmac 300 publishing_server
