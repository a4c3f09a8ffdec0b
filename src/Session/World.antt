-- ===== src/Session/World.antt =====
-- The map `streams_` of rtmp_session_command_message.cpp, with a session that works on it, and
-- `on_close` and `handle_media_message`.
use drone_server.Chunk.{Answer, ChunkStream, complete, refused}
use drone_server.Media.Stream.{Effect, Stream, leave, send}
use drone_server.Prelude.{
  Bool, List, Option, [], false, if◌then◌else◌, length, none, some, true, ℕ, ◌++◌, ◌==◌, ◌∷◌,
}
use drone_server.Prelude.Bytes.{Bytes, bytes_eq}
use drone_server.Prelude.Outcome.{Outcome, fault, ok, ◌>>=◌}
use drone_server.Session.{
  Session, State, clear_current, close, connect, create_stream, current, handshake_c2, init,
  media_transfer, publish_play,
}

-- `std::map<std::string, std::shared_ptr<rtmp_stream>>`: nothing walks it.
abbrev pub StreamMap : Type 0
StreamMap = Bytes → Option Stream

abbrev pub update_stream : StreamMap → Bytes → Option Stream → StreamMap
update_stream streams url v u = if bytes_eq url u then v else streams u

-- What a session does to others, in order: what its streams do, and `on_stream_create`, which a class
-- of DDS.cpp overrides.
pub data Action : Type 0 where
  by_stream : Effect → Action
  stream_created : ℕ → Action

-- A session, its number in the streams, the map and what was done.
pub record World : Type 0 where
  pub session : Session
  pub self : ℕ
  pub streams : StreamMap
  pub actions : List Action

abbrev pub stream_actions : List Effect → List Action
stream_actions [] = []
stream_actions (e ∷ es) = by_stream e ∷ stream_actions es

abbrev pub with_session : World → Outcome Session → Outcome World
with_session w r = r >>= λ s. ok (record w { session = s })

-- `leave(shared_from_this())`, and the stream goes if nobody is left in it.
abbrev pub left_stream : Bytes → World → Stream × List Effect → World
left_stream url w (st, effects) = record w {
  streams = update_stream w.streams url (if length st.peers == 0 then none else some st);
  actions = w.actions ++ stream_actions effects;
}

unfoldable pub leave_stream : Bytes → World → World
leave_stream url w = elim (w.streams url) [
  | none ↦ w
  | some st ↦ left_stream url w (leave w.self st)
]

unfoldable pub on_close : World → World
on_close w =
    let left = leave_stream w.session.url w in
    record left { session = record left.session { state = close } }

abbrev pub is_state : State → State → Bool
is_state init init = true
is_state handshake_c2 handshake_c2 = true
is_state connect connect = true
is_state create_stream create_stream = true
is_state publish_play publish_play = true
is_state media_transfer media_transfer = true
is_state close close = true
is_state s t = false

-- `handle_media_message`, once a stream was found: `send` gets `cs_in[csid_]`.
abbrev pub sent_stream : World → Stream × List Effect → World
sent_stream w (st, effects) = record w {
  streams = update_stream w.streams w.session.url (some st);
  actions = w.actions ++ stream_actions effects;
}

module _ (stoul : Bytes → Option ℕ) where
  unfoldable pub send_media : Stream → ChunkStream → World → Outcome World
  send_media st cs w = send stoul w.self cs st >>= λ r. ok (sent_stream w r)

  -- The answer, with the message's stream cleared.
  abbrev pub media_answered : Answer → World → Outcome (Answer × World)
  media_answered answer w = with_session w (clear_current w.session) >>= λ w'. ok (answer, w')

  abbrev pub media_for : ChunkStream → Option Stream → World → Outcome (Answer × World)
  media_for cs none w = media_answered refused w
  media_for cs (some st) w = send_media st cs w >>= media_answered complete

  abbrev pub media_of : Option ChunkStream → World → Outcome (Answer × World)
  media_of none w = fault
  media_of (some cs) w = media_for cs (w.streams w.session.url) w

  unfoldable pub handle_media_message : World → Outcome (Answer × World)
  handle_media_message w =
      if is_state w.session.state media_transfer
      then media_of (current w.session) w
      else ok (refused, w)
