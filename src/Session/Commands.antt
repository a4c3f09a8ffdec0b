-- ===== src/Session/Commands.antt =====
-- `rtmp_session::handle_command_message` of rtmp_session_command_message.cpp. `fresh_tid` stands for the
-- value of a number that could not be read, which the source leaves unset.
use drone_server.Amf0.{
  Amf0Data, Pointer, Properties, marker_null, marker_number, marker_object, marker_string,
  no_properties, object, string, to, value_at,
}
use drone_server.Amf0.Reading.{
  read_amf0_string, read_null, read_number, read_object, read_properties,
}
use drone_server.Buffer.{Reader, SimpleBuffer, pure, ◌>>>=◌}
use drone_server.Media.Stream.{Stream, join, new_stream}
use drone_server.Prelude.{
  Bool, Option, [], false, if◌then◌else◌, none, some, true, ℕ, ◌&&◌, ◌++◌, ◌∷◌,
}
use drone_server.Prelude.Bytes.{Bytes, bytes_eq}
use drone_server.Prelude.Outcome.{Outcome, fault, ok, ◌>>=◌}
use drone_server.Session.{
  Session, clear_current, connect, create_stream, current, media_transfer, publish_play,
}
use drone_server.Session.Replies.{
  send_connect_result, send_on_status, send_stream_result, text_app, text_connect,
  text_create_stream, text_delete_stream, text_fc_publish, text_fc_unpublish,
  text_get_stream_length, text_play, text_play_reset, text_play_start, text_publish,
  text_publish_start, text_release_stream, text_reset_play, text_start_play, text_start_publishing,
  text_status,
}
use drone_server.Session.Senders.{
  send_set_chunk_size, send_set_peer_bandwidth, send_stream_begin, send_window_ack,
}
use drone_server.Session.World.{
  World, is_state, leave_stream, stream_created, update_stream, with_session,
}

-- A value is read into a fresh object; what `read` answers is not looked at.
abbrev pub string_of : Amf0Data → Bytes
string_of (string m s) = s
string_of d = []

abbrev pub properties_of : Amf0Data → Properties
properties_of (object m ps) = ps
properties_of d = no_properties

unfoldable pub next_string : Reader Bytes
next_string = read_amf0_string marker_string [] >>>= λ r. pure (string_of r.1)

-- The object that was read into: a read that fails at the marker has left that marker in it.
unfoldable pub next_number : ℕ → Reader Amf0Data
next_number fresh_tid = read_number marker_number fresh_tid >>>= λ r. pure r.1

unfoldable pub next_null : Reader (Unit {0})
next_null = read_null marker_null >>>= λ r. pure tt

unfoldable pub next_object : ℕ → Reader Properties
next_object fuel = read_object (read_properties fuel) marker_object no_properties >>>= λ r.
    pure (properties_of r.1)

-- A null and then a string: what most commands go on with.
unfoldable pub next_name : Reader Bytes
next_name = next_null >>>= λ u. next_string

-- `dynamic_cast<Amf0String*>(p)->value`
abbrev pub cast_string : Pointer → Outcome Bytes
cast_string (to (string m s)) = ok s
cast_string p = fault

-- `app + '/' + cid`
abbrev pub url_of : Bytes → Bytes → Bytes
url_of app cid = app ++ b'/' ∷ cid

abbrev pub named : Bytes → Bytes → Session → Session
named app cid s = record s { app = app; cid = cid; url = url_of app cid }

-- "connect"
unfoldable pub connect_settings : Bytes → Session → Session
connect_settings app s = record s { app = app; input = record s.input { max_chunk_size = 4096 } }

unfoldable pub on_connect_command : ℕ → Session → SimpleBuffer → Outcome Session
on_connect_command fuel s b = next_object fuel b >>= λ (ps, b').
    cast_string (value_at text_app ps) >>= λ app.
    send_set_chunk_size fuel (connect_settings app s) >>= λ s₁. send_window_ack fuel s₁ >>= λ s₂.
    send_set_peer_bandwidth fuel s₂ >>= λ s₃.
    send_connect_result fuel s₃ >>= λ s₄. ok (record s₄ { state = create_stream })

-- "createStream"
unfoldable pub on_create_stream : ℕ → Amf0Data → Session → Outcome Session
on_create_stream fuel tid s =
    send_stream_result fuel tid s >>= λ s'. ok (record s' { state = publish_play })

-- "releaseStream"
unfoldable pub on_release_stream : World → SimpleBuffer → Outcome World
on_release_stream w b = next_name b >>= λ (cid, b').
    let s = named w.session.app cid w.session in
    ok (record w { session = s; streams = update_stream w.streams s.url none })

-- "deleteStream": what is read is not used.
unfoldable pub on_delete_stream : ℕ → World → SimpleBuffer → Outcome World
on_delete_stream fresh_tid w b =
    next_null b >>= λ (u, b'). next_number fresh_tid b' >>= λ (asid, b''). ok w

-- "FCPublish"
unfoldable pub on_fc_publish : World → SimpleBuffer → Outcome World
on_fc_publish w b =
    next_name b >>= λ (cid, b'). ok (record w { session = named w.session.app cid w.session })

-- "FCUnpublish"
unfoldable pub on_fc_unpublish : World → SimpleBuffer → Outcome World
on_fc_unpublish w b = next_name b >>= λ (cid, b').
    ok (if bytes_eq w.session.cid cid then leave_stream w.session.url w else w)

-- `cs_in[csid_]->stream()`
abbrev pub current_stream_id : Session → Outcome ℕ
current_stream_id s = elim (current s) [ none ↦ fault | some c ↦ ok c.stream_id ]

module _ (stoul : Bytes → Option ℕ) where
  -- `if (streams_.count(url) == 0) { … }`
  unfoldable pub find_stream : World → Outcome (Stream × World)
  find_stream w = elim (w.streams w.session.url) [
    | some st ↦ ok (st, w)
    | none ↦ new_stream stoul w.session.url >>= λ st.
        ok (st, record w { actions = w.actions ++ stream_created st.cid ∷ [] })
  ]

  -- `streams_[url]->join(shared_from_this(), publisher)`, whose answer is not looked at.
  unfoldable pub join_stream : Bool → World → Outcome World
  join_stream publisher w = find_stream w >>= λ (st, w'). ok (record w' {
    streams = update_stream w'.streams w'.session.url (some (join w.self publisher st).1);
  })

  -- "publish"
  unfoldable pub on_publish : ℕ → World → SimpleBuffer → Outcome World
  on_publish fuel w b = next_name b >>= λ (cid, b'). next_string b' >>= λ (app, b'').
      join_stream true (record w { session = named app cid w.session }) >>= λ w₁.
      current_stream_id w₁.session >>= λ i. with_session w₁ (
        send_stream_begin fuel i w₁.session >>= λ s₁.
        send_on_status fuel text_status text_publish_start text_start_publishing s₁ >>= λ s₂.
        ok (record s₂ { state = media_transfer }))

  -- "play"
  unfoldable pub on_play : ℕ → World → SimpleBuffer → Outcome World
  on_play fuel w b = next_name b >>= λ (cid, b').
      join_stream false (record w { session = named w.session.app cid w.session }) >>= λ w₁.
      current_stream_id w₁.session >>= λ i. with_session w₁ (
        send_stream_begin fuel i w₁.session >>= λ s₁.
        send_on_status fuel text_status text_play_reset text_reset_play s₁ >>= λ s₂.
        send_on_status fuel text_status text_play_start text_start_play s₂ >>= λ s₃.
        ok (record s₃ { state = media_transfer }))

  -- The chain of tests on the command's name.
  unfoldable pub run_command : ℕ → ℕ → Bytes → Amf0Data → World → SimpleBuffer → Outcome World
  run_command fuel fresh_tid name tid w b =
      if bytes_eq name text_connect && is_state w.session.state connect
      then with_session w (on_connect_command fuel w.session b)
      else if bytes_eq name text_create_stream && is_state w.session.state create_stream
      then with_session w (on_create_stream fuel tid w.session)
      else if bytes_eq name text_release_stream
      then on_release_stream w b
      else if bytes_eq name text_delete_stream
      then on_delete_stream fresh_tid w b
      else if bytes_eq name text_fc_publish
      then on_fc_publish w b
      else if bytes_eq name text_fc_unpublish
      then on_fc_unpublish w b
      else if bytes_eq name text_get_stream_length
      then ok w
      else if bytes_eq name text_publish && is_state w.session.state publish_play
      then on_publish fuel w b
      else if bytes_eq name text_play && is_state w.session.state publish_play
      then on_play fuel w b
      else ok w

  -- The command's name and number, from a copy of the message.
  unfoldable pub parse_command : ℕ → Bytes → Outcome ((Bytes × Amf0Data) × SimpleBuffer)
  parse_command fresh_tid content =
      next_string (record { content = content; pos = 0 }) >>= λ (name, b).
      next_number fresh_tid b >>= λ (tid, b'). ok ((name, tid), b')

  unfoldable pub handle_command_message : ℕ → ℕ → World → Outcome World
  handle_command_message fuel fresh_tid w = elim (current w.session) [
    | none ↦ fault
    | some cs ↦ with_session w (clear_current w.session) >>= λ w'.
        parse_command fresh_tid cs.content >>= λ ((name, tid), b).
        run_command fuel fresh_tid name tid w' b
  ]
