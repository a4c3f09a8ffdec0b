-- ===== src/Session/Commanding.antt =====
-- The commands of rtmp_session_command_message.cpp and the map `streams_`.
use drone_server.Amf0.{Amf0Data}
use drone_server.Buffer.{SimpleBuffer}
use drone_server.Prelude.{Bool, Option, Option-cases, false, if◌then◌else◌, inl, inr, none, true, ℕ}
use drone_server.Prelude.Bytes.{Bytes, bytes_eq}
use drone_server.Prelude.Outcome.{Permits, Permits-after, Permits-bind}
use drone_server.Session.{clear_current, current}
use drone_server.Session.Branches.{run_command-Permits}
use drone_server.Session.Commands.{
  current_stream_id, handle_command_message, join_stream, next_name, next_null, next_number,
  next_string, on_delete_stream, on_fc_publish, on_fc_unpublish, on_play, on_publish,
  on_release_stream, parse_command, run_command, url_of,
}
use drone_server.Session.Sharing.{IsSound, leave_stream-IsSound, update_stream-IsSound}
use drone_server.Session.Soundness.{join_stream-IsSound, with_session-IsSound}
use drone_server.Session.World.{World, leave_stream, with_session}

module _ (stoul : Bytes → Option ℕ) where
  on_release_stream-IsSound :
      (w : World) (b : SimpleBuffer)
      → IsSound w.streams
      → Permits (λ w'. IsSound w'.streams) (on_release_stream w b)
  unfolding on_release_stream
  on_release_stream-IsSound w b sound =
      Permits-after _ (next_name b) _
        λ r. update_stream-IsSound w.streams (url_of w.session.app r.0) none sound tt

  if-IsSound :
      (c : Bool) (w v : World)
      → IsSound w.streams
      → IsSound v.streams
      → IsSound (if c then v else w).streams
  if-IsSound true w v h k = k
  if-IsSound false w v h k = h

  on_fc_unpublish-IsSound :
      (w : World) (b : SimpleBuffer)
      → IsSound w.streams
      → Permits (λ w'. IsSound w'.streams) (on_fc_unpublish w b)
  unfolding on_fc_unpublish
  on_fc_unpublish-IsSound w b sound = Permits-after _ (next_name b) _ λ r.
      if-IsSound (bytes_eq w.session.cid r.0) w (leave_stream w.session.url w) sound
        (leave_stream-IsSound w.session.url w sound)

  on_publish-IsSound :
      (fuel : ℕ) (w : World) (b : SimpleBuffer)
      → IsSound w.streams
      → Permits (λ w'. IsSound w'.streams) (on_publish stoul fuel w b)
  unfolding on_publish
  on_publish-IsSound fuel w b sound = Permits-after _ (next_name b) _ λ r.
      Permits-after _ (next_string r.1) _ λ q.
        Permits-bind (λ w₁. IsSound w₁.streams) _ (join_stream stoul true _) _
          (join_stream-IsSound stoul true _ sound)
          (λ w₁ s₁.
            Permits-after _ (current_stream_id w₁.session) _
              λ i. with_session-IsSound stoul w₁ _ s₁)

  on_play-IsSound :
      (fuel : ℕ) (w : World) (b : SimpleBuffer)
      → IsSound w.streams
      → Permits (λ w'. IsSound w'.streams) (on_play stoul fuel w b)
  unfolding on_play
  on_play-IsSound fuel w b sound = Permits-after _ (next_name b) _ λ r.
      Permits-bind (λ w₁. IsSound w₁.streams) _ (join_stream stoul false _) _
        (join_stream-IsSound stoul false _ sound)
        (λ w₁ s₁.
          Permits-after _ (current_stream_id w₁.session) _ λ i. with_session-IsSound stoul w₁ _ s₁)

  on_delete_stream-IsSound :
      (fresh_tid : ℕ) (w : World) (b : SimpleBuffer)
      → IsSound w.streams
      → Permits (λ w'. IsSound w'.streams) (on_delete_stream fresh_tid w b)
  unfolding on_delete_stream
  on_delete_stream-IsSound fresh_tid w b sound =
      Permits-after _ (next_null b) _ λ r. Permits-after _ (next_number fresh_tid r.1) _ λ q. sound

  on_fc_publish-IsSound :
      (w : World) (b : SimpleBuffer)
      → IsSound w.streams
      → Permits (λ w'. IsSound w'.streams) (on_fc_publish w b)
  unfolding on_fc_publish
  on_fc_publish-IsSound w b sound = Permits-after _ (next_name b) _ λ r. sound

  run_command-IsSound :
      (fuel fresh_tid : ℕ) (name : Bytes) (tid : Amf0Data) (w : World) (b : SimpleBuffer)
      → IsSound w.streams
      → Permits (λ w'. IsSound w'.streams) (run_command stoul fuel fresh_tid name tid w b)
  run_command-IsSound fuel fresh_tid name tid w b sound =
      run_command-Permits stoul fuel fresh_tid name tid w b (λ w'. IsSound w'.streams)
        (record {
          connecting = λ e. with_session-IsSound stoul w _ sound;
          creating = λ e. with_session-IsSound stoul w _ sound;
          releasing = on_release_stream-IsSound w b sound;
          deleting = on_delete_stream-IsSound fresh_tid w b sound;
          announcing = on_fc_publish-IsSound w b sound;
          withdrawing = on_fc_unpublish-IsSound w b sound;
          publishing = λ e. on_publish-IsSound fuel w b sound;
          playing = λ e. on_play-IsSound fuel w b sound;
          idle = sound;
        })

  pub handle_command_message-IsSound :
      (fuel fresh_tid : ℕ) (w : World)
      → IsSound w.streams
      → Permits (λ w'. IsSound w'.streams) (handle_command_message stoul fuel fresh_tid w)
  unfolding handle_command_message
  handle_command_message-IsSound fuel fresh_tid w sound = elim (Option-cases (current w.session)) [
    | inl e ↦ rw (e, handle_command_message) tt
    | inr (cs, e) ↦
        rw (e, handle_command_message)
          (Permits-bind (λ v. IsSound v.streams) _ (with_session w (clear_current w.session)) _
            (with_session-IsSound stoul w _ sound)
            (λ w' s.
              Permits-after _ (parse_command stoul fresh_tid cs.content) _
                λ r. run_command-IsSound fuel fresh_tid r.0.0 r.0.1 w' r.1 s))
  ]
