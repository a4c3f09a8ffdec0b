-- ===== src/Session/Senders.antt =====
-- The senders of rtmp_session_control_message.cpp.
use drone_server.Prelude.{[], length, true, ℕ, ◌++◌, ◌∷◌}
use drone_server.Prelude.Bytes.{Bytes, big_endian}
use drone_server.Prelude.Outcome.{Outcome}
use drone_server.Session.{Session, write_message}

-- All of them send with times 0 on chunk stream 2 and message stream 0, with a whole header.
abbrev pub send_control : ℕ → ℕ → Bytes → Session → Outcome Session
send_control fuel type msg s =
    write_message fuel 2
      (record { time = 0; dtime = 0; type_id = type; stream_id = 0; size = length msg }) msg true s

unfoldable pub send_set_chunk_size : ℕ → Session → Outcome Session
send_set_chunk_size fuel s = send_control fuel 1 (big_endian 4 s.input.max_chunk_size) s

unfoldable pub send_ack : ℕ → Session → Outcome Session
send_ack fuel s = send_control fuel 3 (big_endian 4 s.ack_recv_total) s

-- The event number has two bytes, of which the first is 0.
abbrev pub event_bytes : ℕ → ℕ → Bytes
event_bytes event v = 0 ∷ event ∷ big_endian 4 v

unfoldable pub send_stream_begin : ℕ → ℕ → Session → Outcome Session
send_stream_begin fuel stream_id s = send_control fuel 4 (event_bytes 0 stream_id) s

unfoldable pub send_stream_eof : ℕ → ℕ → Session → Outcome Session
send_stream_eof fuel stream_id s = send_control fuel 4 (event_bytes 1 stream_id) s

unfoldable pub send_stream_dry : ℕ → ℕ → Session → Outcome Session
send_stream_dry fuel stream_id s = send_control fuel 4 (event_bytes 2 stream_id) s

unfoldable pub send_stream_isrecorded : ℕ → ℕ → Session → Outcome Session
send_stream_isrecorded fuel stream_id s = send_control fuel 4 (event_bytes 4 stream_id) s

-- `now` is what `std::time(0)` gives.
unfoldable pub send_ping_request : ℕ → ℕ → Session → Outcome Session
send_ping_request fuel now s = send_control fuel 4 (event_bytes 6 now) s

unfoldable pub send_window_ack : ℕ → Session → Outcome Session
send_window_ack fuel s = send_control fuel 5 (big_endian 4 s.window_size) s

abbrev pub bandwidth_bytes : Session → Bytes
bandwidth_bytes s = big_endian 4 s.peer_bandwidth ++ s.peer_bandwidth_type ∷ []

unfoldable pub send_set_peer_bandwidth : ℕ → Session → Outcome Session
send_set_peer_bandwidth fuel s = send_control fuel 6 (bandwidth_bytes s) s
