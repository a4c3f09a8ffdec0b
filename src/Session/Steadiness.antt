-- ===== src/Session/Steadiness.antt =====
-- Control messages, acknowledgements and media of rtmp_session.cpp and the state of the session.
use drone_server.Chunk.{Answer, ChunkStream, complete, refused}
use drone_server.Media.Stream.{Stream, send}
use drone_server.Prelude.{
  Option, Option-cases, arith, inl, inr, length, ltb, none, refl, some, true, ℕ, ◌∙◌, ◌≡◌,
}
use drone_server.Prelude.Bytes.{Bytes}
use drone_server.Prelude.Outcome.{Permits, Permits-after, Permits-bind, Permits-if, Permits-imp}
use drone_server.Session.{Session, clear_current, current, media_transfer}
use drone_server.Session.Control.{apply_control, handle_control_message}
use drone_server.Session.Handling.{acknowledge, count_message, counted}
use drone_server.Session.Senders.{send_ack}
use drone_server.Session.Sends.{Sends, write_message-Sends}
use drone_server.Session.Transitions.{SameState, clear_current-state, with_session-state}
use drone_server.Session.World.{
  World, handle_media_message, is_state, media_answered, media_for, media_of, send_media,
  with_session,
}

apply_control-state :
    (type : ℕ) (s : Session) (bytes : Bytes)
    → Permits (λ s'. s'.state ≡ s.state) (apply_control type s bytes)
apply_control-state type s bytes = ground arith

pub handle_control_message-state :
    (s : Session) → Permits (λ s'. s'.state ≡ s.state) (handle_control_message s)
unfolding handle_control_message
handle_control_message-state s = elim (Option-cases (current s)) [
  | inl e ↦ rw (e, handle_control_message) tt
  | inr (c, e) ↦
      rw (e, handle_control_message)
        (Permits-bind _ _ (apply_control c.type s c.content) clear_current
          (apply_control-state c.type s c.content)
          (λ s' k. Permits-imp _ _ (clear_current s') (clear_current-state s') (λ s'' q. q ∙ k)))
]

send_ack-state : (fuel : ℕ) (s : Session) → Permits (λ s'. s'.state ≡ s.state) (send_ack fuel s)
unfolding send_ack
send_ack-state fuel s =
    Permits-imp (Sends s) _ (send_ack fuel s) (write_message-Sends fuel 2 _ _ true s)
      (λ s' h. h.same_state)

acknowledge-state :
    (fuel : ℕ) (s : Session) → Permits (λ s'. s'.state ≡ s.state) (acknowledge fuel s)
acknowledge-state fuel s =
    Permits-if _ (ltb s.window_size s.ack_recv) _ _
      (λ _. Permits-bind _ _ (send_ack fuel s) _ (send_ack-state fuel s) (λ s' e. e)) (λ _. refl)

pub count_message-state :
    (fuel : ℕ) (s : Session) → Permits (λ s'. s'.state ≡ s.state) (count_message fuel s)
unfolding count_message
count_message-state fuel s = elim (Option-cases (current s)) [
  | inl e ↦ rw (e, count_message) tt
  | inr (c, e) ↦ rw (e, count_message) (acknowledge-state fuel (counted (length c.content) s))
]

module _ (stoul : Bytes → Option ℕ) where
  abbrev pub Kept : World → Answer × World → Type 0
  Kept w out = out.1.session.state ≡ w.session.state

  send_media-state :
      (st : Stream) (cs : ChunkStream) (w : World)
      → Permits (SameState w) (send_media stoul st cs w)
  unfolding send_media
  send_media-state st cs w = Permits-after _ (send stoul w.self cs st) _ λ r. refl

  media_answered-Kept :
      (answer : Answer) (w : World) → Permits (Kept w) (media_answered stoul answer w)
  media_answered-Kept answer w =
      Permits-bind (SameState w) (Kept w) (with_session w (clear_current w.session)) _
        (with_session-state stoul w.session.state w _ (clear_current-state w.session)) (λ w' e. e)

  media_for-Kept :
      (cs : ChunkStream) (found : Option Stream) (w : World)
      → Permits (Kept w) (media_for stoul cs found w)
  media_for-Kept cs none w = media_answered-Kept refused w
  media_for-Kept cs (some st) w =
      Permits-bind (SameState w) (Kept w) (send_media stoul st cs w) _ (send_media-state st cs w)
        (λ w' same.
          Permits-imp (Kept w') (Kept w) (media_answered stoul complete w')
            (media_answered-Kept complete w') (λ out e. e ∙ same))

  media_of-Kept : (c : Option ChunkStream) (w : World) → Permits (Kept w) (media_of stoul c w)
  media_of-Kept none w = tt
  media_of-Kept (some cs) w = media_for-Kept cs (w.streams w.session.url) w

  pub handle_media_message-Kept : (w : World) → Permits (Kept w) (handle_media_message stoul w)
  unfolding handle_media_message
  handle_media_message-Kept w =
      Permits-if _ (is_state w.session.state media_transfer) _ _
        (λ _. media_of-Kept (current w.session) w) (λ _. refl)
