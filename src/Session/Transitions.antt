-- ===== src/Session/Transitions.antt =====
-- The states that the commands of rtmp_session_command_message.cpp lead a session through.
use drone_server.Amf0.{Amf0Data, value_at}
use drone_server.Buffer.{SimpleBuffer}
use drone_server.Prelude.{
  Bool, Option, Option-cases, ap, false, if◌then◌else◌, inl, inr, refl, subst, sym, true, ℕ, ◌≡◌,
}
use drone_server.Prelude.Bytes.{Bytes, bytes_eq}
use drone_server.Prelude.Outcome.{Outcome, Permits, Permits-after, Permits-bind, Permits-imp}
use drone_server.Session.{
  Session, State, clear_current, connect, create_stream, current, media_transfer, publish_play,
}
use drone_server.Session.Branches.{run_command-Permits}
use drone_server.Session.Commands.{
  cast_string, connect_settings, current_stream_id, handle_command_message, join_stream, next_name,
  next_null, next_number, next_object, next_string, on_connect_command, on_create_stream,
  on_delete_stream, on_fc_publish, on_fc_unpublish, on_play, on_publish, on_release_stream,
  parse_command, run_command,
}
use drone_server.Session.Replies.{send_connect_result, send_on_status, send_stream_result, text_app}
use drone_server.Session.Senders.{
  send_set_chunk_size, send_set_peer_bandwidth, send_stream_begin, send_window_ack,
}
use drone_server.Session.World.{World, leave_stream, with_session}

pub data Transition : State → State → Type 0 where
  stays : {s : State} → Transition s s
  connects : Transition connect create_stream
  creates : Transition create_stream publish_play
  starts : Transition publish_play media_transfer

pub leave_stream-session : (url : Bytes) (w : World) → (leave_stream url w).session ≡ w.session
unfolding leave_stream
leave_stream-session url w = elim (Option-cases (w.streams url)) [
  | inl e ↦ rw (e, leave_stream) refl
  | inr (st, e) ↦ rw (e, leave_stream) refl
]

on_connect_command-state :
    (fuel : ℕ) (s : Session) (b : SimpleBuffer)
    → Permits (λ s'. s'.state ≡ create_stream) (on_connect_command fuel s b)
unfolding on_connect_command
on_connect_command-state fuel s b = Permits-after _ (next_object fuel b) _ λ r.
    Permits-after _ (cast_string (value_at text_app r.0)) _ λ app.
      Permits-after _ (send_set_chunk_size fuel (connect_settings app s)) _ λ s₁.
        Permits-after _ (send_window_ack fuel s₁) _ λ s₂.
          Permits-after _ (send_set_peer_bandwidth fuel s₂) _
            λ s₃. Permits-after _ (send_connect_result fuel s₃) _ λ s₄. refl

on_create_stream-state :
    (fuel : ℕ) (tid : Amf0Data) (s : Session)
    → Permits (λ s'. s'.state ≡ publish_play) (on_create_stream fuel tid s)
unfolding on_create_stream
on_create_stream-state fuel tid s = Permits-after _ (send_stream_result fuel tid s) _ λ s'. refl

-- The state after one world is the state after the other.
abbrev pub SameState : World → World → Type 0
SameState w w' = w'.session.state ≡ w.session.state

on_release_stream-SameState :
    (w : World) (b : SimpleBuffer) → Permits (SameState w) (on_release_stream w b)
unfolding on_release_stream
on_release_stream-SameState w b = Permits-after _ (next_name b) _ λ r. refl

on_delete_stream-SameState :
    (fresh_tid : ℕ) (w : World) (b : SimpleBuffer)
    → Permits (SameState w) (on_delete_stream fresh_tid w b)
unfolding on_delete_stream
on_delete_stream-SameState fresh_tid w b =
    Permits-after _ (next_null b) _ λ r. Permits-after _ (next_number fresh_tid r.1) _ λ q. refl

on_fc_publish-SameState : (w : World) (b : SimpleBuffer) → Permits (SameState w) (on_fc_publish w b)
unfolding on_fc_publish
on_fc_publish-SameState w b = Permits-after _ (next_name b) _ λ r. refl

if-SameState : (c : Bool) (w v : World) → SameState w v → SameState w (if c then v else w)
if-SameState true w v h = h
if-SameState false w v h = refl

on_fc_unpublish-SameState :
    (w : World) (b : SimpleBuffer) → Permits (SameState w) (on_fc_unpublish w b)
unfolding on_fc_unpublish
on_fc_unpublish-SameState w b = Permits-after _ (next_name b) _ λ r.
    if-SameState (bytes_eq w.session.cid r.0) w (leave_stream w.session.url w)
      (ap (λ s. s.state) (leave_stream-session w.session.url w))

pub clear_current-state : (s : Session) → Permits (λ s'. s'.state ≡ s.state) (clear_current s)
unfolding clear_current
clear_current-state s = elim (Option-cases (current s)) [
  | inl e ↦ rw (e, clear_current) tt
  | inr (c, e) ↦ rw (e, clear_current) refl
]

module _ (stoul : Bytes → Option ℕ) where
  pub with_session-state :
      (t : State) (w : World) (r : Outcome Session)
      → Permits (λ s. s.state ≡ t) r
      → Permits (λ w'. w'.session.state ≡ t) (with_session w r)
  with_session-state t w r h =
      Permits-bind (λ s. s.state ≡ t) (λ w'. w'.session.state ≡ t) r _ h (λ s e. e)

  on_publish-state :
      (fuel : ℕ) (w : World) (b : SimpleBuffer)
      → Permits (λ w'. w'.session.state ≡ media_transfer) (on_publish stoul fuel w b)
  unfolding on_publish
  on_publish-state fuel w b = Permits-after _ (next_name b) _ λ r.
      Permits-after _ (next_string r.1) _ λ q. Permits-after _ (join_stream stoul true _) _ λ w₁.
        Permits-after _ (current_stream_id w₁.session) _ λ i.
          with_session-state media_transfer w₁ _ (
            Permits-after _ (send_stream_begin fuel i w₁.session) _
              λ s₁. Permits-after _ (send_on_status fuel _ _ _ s₁) _ λ s₂. refl)

  on_play-state :
      (fuel : ℕ) (w : World) (b : SimpleBuffer)
      → Permits (λ w'. w'.session.state ≡ media_transfer) (on_play stoul fuel w b)
  unfolding on_play
  on_play-state fuel w b = Permits-after _ (next_name b) _ λ r.
      Permits-after _ (join_stream stoul false _) _ λ w₁.
        Permits-after _ (current_stream_id w₁.session) _ λ i.
          with_session-state media_transfer w₁ _ (
            Permits-after _ (send_stream_begin fuel i w₁.session) _ λ s₁.
              Permits-after _ (send_on_status fuel _ _ _ s₁) _
                λ s₂. Permits-after _ (send_on_status fuel _ _ _ s₂) _ λ s₃. refl)

  abbrev pub Moves : World → World → Type 0
  Moves w w' = Transition w.session.state w'.session.state

  moved :
      (s t : State) (w : World) (r : Outcome World)
      → w.session.state ≡ s
      → Transition s t
      → Permits (λ w'. w'.session.state ≡ t) r
      → Permits (Moves w) r
  moved s t w r e step h = Permits-imp _ (Moves w) r h λ w' e'.
      subst (λ x. Transition x w'.session.state) (sym e) (subst (Transition s) (sym e') step)

  kept : (w : World) (r : Outcome World) → Permits (SameState w) r → Permits (Moves w) r
  kept w r h =
      Permits-imp (SameState w) (Moves w) r h
        λ w' e. subst (Transition w.session.state) (sym e) stays

  run_command-Moves :
      (fuel fresh_tid : ℕ) (name : Bytes) (tid : Amf0Data) (w : World) (b : SimpleBuffer)
      → Permits (Moves w) (run_command stoul fuel fresh_tid name tid w b)
  run_command-Moves fuel fresh_tid name tid w b =
      run_command-Permits stoul fuel fresh_tid name tid w b (Moves w) (record {
        connecting = λ e.
            moved connect create_stream w _ e connects
              (with_session-state create_stream w _ (on_connect_command-state fuel w.session b));
        creating = λ e.
            moved create_stream publish_play w _ e creates
              (with_session-state publish_play w _ (on_create_stream-state fuel tid w.session));
        releasing = kept w _ (on_release_stream-SameState w b);
        deleting = kept w _ (on_delete_stream-SameState fresh_tid w b);
        announcing = kept w _ (on_fc_publish-SameState w b);
        withdrawing = kept w _ (on_fc_unpublish-SameState w b);
        publishing =
            λ e. moved publish_play media_transfer w _ e starts (on_publish-state fuel w b);
        playing = λ e. moved publish_play media_transfer w _ e starts (on_play-state fuel w b);
        idle = stays;
      })

  pub handle_command_message-Moves :
      (fuel fresh_tid : ℕ) (w : World)
      → Permits (Moves w) (handle_command_message stoul fuel fresh_tid w)
  unfolding handle_command_message
  handle_command_message-Moves fuel fresh_tid w = elim (Option-cases (current w.session)) [
    | inl e ↦ rw (e, handle_command_message) tt
    | inr (cs, e) ↦
        rw (e, handle_command_message)
          (Permits-bind (SameState w) (Moves w) (with_session w (clear_current w.session)) _
            (with_session-state w.session.state w _ (clear_current-state w.session))
            (λ w' same. Permits-after _ (parse_command stoul fresh_tid cs.content) _ λ r.
              subst
                (λ x.
                  Permits (λ v. Transition x v.session.state)
                    (run_command stoul fuel fresh_tid r.0.0 r.0.1 w' r.1))
                same (run_command-Moves fuel fresh_tid r.0.0 r.0.1 w' r.1)))
  ]
