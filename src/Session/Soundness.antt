-- ===== src/Session/Soundness.antt =====
-- The commands and the media messages of rtmp_session_command_message.cpp and the map `streams_`.
use drone_server.Chunk.{Answer, ChunkStream, complete, refused}
use drone_server.Media.Conversion.{after_slash, chunk_stream_to_media_pkt, cid_from_hex}
use drone_server.Media.GopCache.{insert}
use drone_server.Media.History.{sent-IsValid}
use drone_server.Media.Membership.{IsValid, insert-min_gop}
use drone_server.Media.Stream.{Stream, is_session, new_stream, send}
use drone_server.Prelude.{
  Bool, Option, Option-cases, ap, inl, inr, none, refl, some, subst, sym, ℕ, ◌∙◌, ◌≡◌,
}
use drone_server.Prelude.Bytes.{Bytes}
use drone_server.Prelude.Outcome.{
  Outcome, Permits, Permits-Yields, Permits-after, Permits-bind, Permits-if,
}
use drone_server.Session.{Session, clear_current, current, media_transfer}
use drone_server.Session.Commands.{find_stream, join_stream}
use drone_server.Session.Sharing.{
  Holding, Holding-cases, IsSound, joined-Holding, length-start_peers, update_stream-IsSound,
}
use drone_server.Session.World.{
  World, handle_media_message, is_state, media_answered, media_for, media_of, send_media,
  with_session,
}

-- The map stays sound.
abbrev pub KeepsSound : World → World → Type 0
KeepsSound w w' = IsSound w.streams → IsSound w'.streams

module _ (stoul : Bytes → Option ℕ) where
  sent-Holding :
      (k : ℕ) (cs : ChunkStream) (url : Bytes) (st : Stream)
      → Holding url (some st)
      → Permits (λ r. Holding url (some r.0)) (send stoul k cs st)
  unfolding send
  sent-Holding k cs url st h =
      Permits-if _ (is_session k st.publisher) _ _
        (λ _. Permits-after _ (chunk_stream_to_media_pkt stoul st.url cs) _ λ pkt.
          Permits-bind (λ r. r.0.min_gop ≡ 1) _ (insert pkt st.gop) _
            (Permits-Yields (λ r. r.0.min_gop ≡ 1) (insert pkt st.gop)
              (insert-min_gop pkt st.gop h.0.one_gop))
            (λ r one.
              (sent-IsValid stoul k st r.0 h.0 one, h.1, rw (length-start_peers k st.peers) h.2)))
        (λ _. h)

  send_media-IsSound :
      (st : Stream) (cs : ChunkStream) (w : World)
      → IsSound w.streams
      → Holding w.session.url (some st)
      → Permits (λ w'. IsSound w'.streams) (send_media stoul st cs w)
  unfolding send_media
  send_media-IsSound st cs w sound h =
      Permits-bind _ _ (send stoul w.self cs st) _ (sent-Holding w.self cs w.session.url st h)
        (λ r q. update_stream-IsSound w.streams w.session.url (some r.0) sound q)

  pub with_session-IsSound :
      (w : World) (r : Outcome Session)
      → IsSound w.streams
      → Permits (λ w'. IsSound w'.streams) (with_session w r)
  with_session-IsSound w r sound = Permits-after _ r _ (λ s. sound)

  media_answered-IsSound :
      (answer : Answer) (w : World)
      → IsSound w.streams
      → Permits (λ out. IsSound out.1.streams) (media_answered stoul answer w)
  media_answered-IsSound answer w sound =
      Permits-bind _ _ (with_session w (clear_current w.session)) _ (with_session-IsSound w _ sound)
        (λ w' h. h)

  media_for-IsSound :
      (cs : ChunkStream) (found : Option Stream) (w : World)
      → IsSound w.streams
      → Holding w.session.url found
      → Permits (λ out. IsSound out.1.streams) (media_for stoul cs found w)
  media_for-IsSound cs none w sound h = media_answered-IsSound refused w sound
  media_for-IsSound cs (some st) w sound h =
      Permits-bind _ _ (send_media stoul st cs w) _ (send_media-IsSound st cs w sound h)
        (λ w' s. media_answered-IsSound complete w' s)

  media_of-IsSound :
      (c : Option ChunkStream) (w : World)
      → IsSound w.streams
      → Permits (λ out. IsSound out.1.streams) (media_of stoul c w)
  media_of-IsSound none w sound = tt
  media_of-IsSound (some cs) w sound =
      media_for-IsSound cs (w.streams w.session.url) w sound (sound w.session.url)

  pub handle_media_message-IsSound :
      (w : World)
      → IsSound w.streams
      → Permits (λ out. IsSound out.1.streams) (handle_media_message stoul w)
  unfolding handle_media_message
  handle_media_message-IsSound w sound =
      Permits-if _ (is_state w.session.state media_transfer) _ _
        (λ _. media_of-IsSound (current w.session) w sound) (λ _. sound)

  new_stream-url :
      (url : Bytes) → Permits (λ st. IsValid st × (st.url ≡ url)) (new_stream stoul url)
  unfolding new_stream
  new_stream-url url =
      Permits-after _ (cid_from_hex stoul (after_slash url)) _
        λ cid. (record { distinct = tt; publisher_joined = λ k h. absurd cc; one_gop = refl }, refl)

  -- What `find_stream` leaves: a stream for the place, and a map as sound as before.
  abbrev Found : World → Stream × World → Type 0
  Found w r =
      IsValid r.0
      × (r.0.url ≡ w.session.url)
      × (r.1.session ≡ w.session)
      × (r.1.streams ≡ w.streams)

  find_stream-Found : (w : World) → IsSound w.streams → Permits (Found w) (find_stream stoul w)
  unfolding find_stream
  find_stream-Found w sound = elim (Option-cases (w.streams w.session.url)) [
    | inl e ↦
        rw (e, find_stream)
          (Permits-bind _ (Found w) (new_stream stoul w.session.url) _
            (new_stream-url w.session.url) (λ st h. (h.0, h.1, refl, refl)))
    | inr (st, e) ↦
        rw (e, find_stream)
          (let h = Holding-cases w.streams w.session.url st sound e in (h.0, h.1, refl, refl))
  ]

  pub join_stream-IsSound :
      (publisher : Bool) (w : World)
      → IsSound w.streams
      → Permits (λ w'. IsSound w'.streams) (join_stream stoul publisher w)
  unfolding join_stream
  join_stream-IsSound publisher w sound =
      Permits-bind (Found w) _ (find_stream stoul w) _ (find_stream-Found w sound) (λ r f.
        update_stream-IsSound r.1.streams r.1.session.url _ (subst IsSound (sym f.3) sound) (
          joined-Holding w.self publisher r.1.session.url r.0 f.0
            (f.1 ∙ ap (λ s. s.url) (sym f.2))))
