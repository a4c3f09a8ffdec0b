-- ===== src/Session/Replies.antt =====
-- What rtmp_session_command_message.cpp sends in answer to commands, and `send_onStatus`.
use drone_server.Amf0.{
  Amf0Data, Properties, marker_object, new_null, new_number, new_string, no_properties, object, put,
  to,
}
use drone_server.Amf0.Writing.{write}
use drone_server.Buffer.{SimpleBuffer, empty_buffer}
use drone_server.Prelude.{List, [], false, length, ℕ, ◌∷◌}
use drone_server.Prelude.Bytes.{Bytes}
use drone_server.Prelude.Outcome.{Outcome, ok, ◌>>=◌}
use drone_server.Session.{Session, write_message}

-- Each value is written after the one before it, in a buffer that begins empty.
unfoldable pub write_values : List Amf0Data → SimpleBuffer → Outcome Bytes
write_values [] b = ok b.content
write_values (d ∷ ds) b = write d b >>= λ b'. write_values ds b'

-- A message of type 20 with times 0 on message stream 0.
abbrev pub send_values : ℕ → ℕ → List Amf0Data → Session → Outcome Session
send_values fuel csid ds s = write_values ds empty_buffer >>= λ msg.
    write_message fuel csid
      (record { time = 0; dtime = 0; type_id = 20; stream_id = 0; size = length msg }) msg false s

-- Doubles, as their patterns.
abbrev pub double_1 : ℕ
double_1 = 0x3ff0_0000_0000_0000

abbrev pub double_30 : ℕ
double_30 = 0x403e_0000_0000_0000

abbrev pub double_31 : ℕ
double_31 = 0x403f_0000_0000_0000

-- The texts, as their characters.
abbrev pub text_result : Bytes
text_result = b'_' ∷ b'r' ∷ b'e' ∷ b's' ∷ b'u' ∷ b'l' ∷ b't' ∷ []

abbrev pub text_on_status : Bytes
text_on_status = b'o' ∷ b'n' ∷ b'S' ∷ b't' ∷ b'a' ∷ b't' ∷ b'u' ∷ b's' ∷ []

abbrev pub text_level : Bytes
text_level = b'l' ∷ b'e' ∷ b'v' ∷ b'e' ∷ b'l' ∷ []

abbrev pub text_code : Bytes
text_code = b'c' ∷ b'o' ∷ b'd' ∷ b'e' ∷ []

abbrev pub text_description : Bytes
text_description = b'd' ∷ b'e' ∷ b's' ∷ b'c' ∷ b'r' ∷ b'i' ∷ b'p' ∷ b't' ∷ b'i' ∷ b'o' ∷ b'n' ∷ []

abbrev pub text_status : Bytes
text_status = b's' ∷ b't' ∷ b'a' ∷ b't' ∷ b'u' ∷ b's' ∷ []

abbrev pub text_fms_ver : Bytes
text_fms_ver = b'f' ∷ b'm' ∷ b's' ∷ b'V' ∷ b'e' ∷ b'r' ∷ []

abbrev pub text_capabilities : Bytes
text_capabilities =
    b'c' ∷ b'a' ∷ b'p' ∷ b'a' ∷ b'b' ∷ b'i' ∷ b'l' ∷ b'i' ∷ b't' ∷ b'i' ∷ b'e' ∷ b's' ∷ []

abbrev pub text_object_encoding : Bytes
text_object_encoding =
    b'o' ∷ b'b' ∷ b'j' ∷ b'e' ∷ b'c' ∷ b't' ∷ b'E' ∷ b'n' ∷ b'c' ∷ b'o' ∷ b'd' ∷ b'i' ∷ b'n' ∷ b'g'
    ∷ []

abbrev pub text_fms_version : Bytes
text_fms_version =
    b'F' ∷ b'M' ∷ b'S' ∷ b'/' ∷ b'3' ∷ b',' ∷ b'0' ∷ b',' ∷ b'1' ∷ b',' ∷ b'1' ∷ b'2' ∷ b'3' ∷ []

abbrev pub text_connect_success : Bytes
text_connect_success =
    b'N' ∷ b'e' ∷ b't' ∷ b'C' ∷ b'o' ∷ b'n' ∷ b'n' ∷ b'e' ∷ b'c' ∷ b't' ∷ b'i' ∷ b'o' ∷ b'n' ∷ b'.'
    ∷ b'C' ∷ b'o' ∷ b'n' ∷ b'n' ∷ b'e' ∷ b'c' ∷ b't' ∷ b'.' ∷ b'S' ∷ b'u' ∷ b'c' ∷ b'c' ∷ b'e'
    ∷ b's' ∷ b's' ∷ []

abbrev pub text_connection_succeeded : Bytes
text_connection_succeeded =
    b'C' ∷ b'o' ∷ b'n' ∷ b'n' ∷ b'e' ∷ b'c' ∷ b't' ∷ b'i' ∷ b'o' ∷ b'n' ∷ b' ' ∷ b's' ∷ b'u' ∷ b'c'
    ∷ b'c' ∷ b'e' ∷ b'e' ∷ b'd' ∷ b'e' ∷ b'd' ∷ []

abbrev pub text_publish_start : Bytes
text_publish_start =
    b'N' ∷ b'e' ∷ b't' ∷ b'S' ∷ b't' ∷ b'r' ∷ b'e' ∷ b'a' ∷ b'm' ∷ b'.' ∷ b'P' ∷ b'u' ∷ b'b' ∷ b'l'
    ∷ b'i' ∷ b's' ∷ b'h' ∷ b'.' ∷ b'S' ∷ b't' ∷ b'a' ∷ b'r' ∷ b't' ∷ []

abbrev pub text_start_publishing : Bytes
text_start_publishing =
    b'S' ∷ b't' ∷ b'a' ∷ b'r' ∷ b't' ∷ b' ' ∷ b'p' ∷ b'u' ∷ b'b' ∷ b'l' ∷ b'i' ∷ b's' ∷ b'h' ∷ b'i'
    ∷ b'n' ∷ b'g' ∷ []

abbrev pub text_play_reset : Bytes
text_play_reset =
    b'N' ∷ b'e' ∷ b't' ∷ b'S' ∷ b't' ∷ b'r' ∷ b'e' ∷ b'a' ∷ b'm' ∷ b'.' ∷ b'P' ∷ b'l' ∷ b'a' ∷ b'y'
    ∷ b'.' ∷ b'R' ∷ b'e' ∷ b's' ∷ b'e' ∷ b't' ∷ []

abbrev pub text_reset_play : Bytes
text_reset_play = b'R' ∷ b'e' ∷ b's' ∷ b'e' ∷ b't' ∷ b' ' ∷ b'p' ∷ b'l' ∷ b'a' ∷ b'y' ∷ []

abbrev pub text_play_start : Bytes
text_play_start =
    b'N' ∷ b'e' ∷ b't' ∷ b'S' ∷ b't' ∷ b'r' ∷ b'e' ∷ b'a' ∷ b'm' ∷ b'.' ∷ b'P' ∷ b'l' ∷ b'a' ∷ b'y'
    ∷ b'.' ∷ b'S' ∷ b't' ∷ b'a' ∷ b'r' ∷ b't' ∷ []

abbrev pub text_start_play : Bytes
text_start_play = b'S' ∷ b't' ∷ b'a' ∷ b'r' ∷ b't' ∷ b' ' ∷ b'p' ∷ b'l' ∷ b'a' ∷ b'y' ∷ []

abbrev pub text_app : Bytes
text_app = b'a' ∷ b'p' ∷ b'p' ∷ []

abbrev pub text_connect : Bytes
text_connect = b'c' ∷ b'o' ∷ b'n' ∷ b'n' ∷ b'e' ∷ b'c' ∷ b't' ∷ []

abbrev pub text_create_stream : Bytes
text_create_stream =
    b'c' ∷ b'r' ∷ b'e' ∷ b'a' ∷ b't' ∷ b'e' ∷ b'S' ∷ b't' ∷ b'r' ∷ b'e' ∷ b'a' ∷ b'm' ∷ []

abbrev pub text_release_stream : Bytes
text_release_stream =
    b'r' ∷ b'e' ∷ b'l' ∷ b'e' ∷ b'a' ∷ b's' ∷ b'e' ∷ b'S' ∷ b't' ∷ b'r' ∷ b'e' ∷ b'a' ∷ b'm' ∷ []

abbrev pub text_delete_stream : Bytes
text_delete_stream =
    b'd' ∷ b'e' ∷ b'l' ∷ b'e' ∷ b't' ∷ b'e' ∷ b'S' ∷ b't' ∷ b'r' ∷ b'e' ∷ b'a' ∷ b'm' ∷ []

abbrev pub text_fc_publish : Bytes
text_fc_publish = b'F' ∷ b'C' ∷ b'P' ∷ b'u' ∷ b'b' ∷ b'l' ∷ b'i' ∷ b's' ∷ b'h' ∷ []

abbrev pub text_fc_unpublish : Bytes
text_fc_unpublish = b'F' ∷ b'C' ∷ b'U' ∷ b'n' ∷ b'p' ∷ b'u' ∷ b'b' ∷ b'l' ∷ b'i' ∷ b's' ∷ b'h' ∷ []

abbrev pub text_get_stream_length : Bytes
text_get_stream_length =
    b'g' ∷ b'e' ∷ b't' ∷ b'S' ∷ b't' ∷ b'r' ∷ b'e' ∷ b'a' ∷ b'm' ∷ b'L' ∷ b'e' ∷ b'n' ∷ b'g' ∷ b't'
    ∷ b'h' ∷ []

abbrev pub text_publish : Bytes
text_publish = b'p' ∷ b'u' ∷ b'b' ∷ b'l' ∷ b'i' ∷ b's' ∷ b'h' ∷ []

abbrev pub text_play : Bytes
text_play = b'p' ∷ b'l' ∷ b'a' ∷ b'y' ∷ []

abbrev pub new_object : Properties → Amf0Data
new_object ps = object marker_object ps

abbrev pub put_string : Bytes → Bytes → Properties → Properties
put_string key v ps = put key (to (new_string v)) ps

unfoldable pub connect_props : Properties
connect_props =
    put text_capabilities (to (new_number double_31))
      (put_string text_fms_ver text_fms_version no_properties)

unfoldable pub connect_info : Properties
connect_info = put text_object_encoding (to (new_number 0)) (
    put_string text_description text_connection_succeeded
      (put_string text_code text_connect_success (put_string text_level text_status no_properties)))

-- The answer to "connect", on the chunk stream of the command.
unfoldable pub send_connect_result : ℕ → Session → Outcome Session
send_connect_result fuel s =
    send_values fuel s.input.csid
      (new_string text_result
        ∷ new_number double_1
        ∷ new_object connect_props
        ∷ new_object connect_info
        ∷ [])
      s

-- The answer to "createStream": the number of the command is written as the object stands that was read.
unfoldable pub send_stream_result : ℕ → Amf0Data → Session → Outcome Session
send_stream_result fuel tid s =
    send_values fuel 3 (new_string text_result ∷ tid ∷ new_null ∷ new_number double_30 ∷ []) s

unfoldable pub status_info : Bytes → Bytes → Bytes → Properties
status_info level code desc =
    put_string text_description desc
      (put_string text_code code (put_string text_level level no_properties))

-- `tid` is 0 in every call.
unfoldable pub send_on_status : ℕ → Bytes → Bytes → Bytes → Session → Outcome Session
send_on_status fuel level code desc s =
    send_values fuel 3
      (new_string text_on_status
        ∷ new_number 0
        ∷ new_null
        ∷ new_object (status_info level code desc)
        ∷ [])
      s
