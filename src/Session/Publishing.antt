-- ===== src/Session/Publishing.antt =====
-- Publish in rtmp_session_command_message.cpp: what is sent, and a second publisher.
use drone_server.Amf0.{new_null, new_number, new_string, put}
use drone_server.Amf0.Writing.{write, write_object_end}
use drone_server.Buffer.{
  SimpleBuffer, empty_buffer, write_1byte, write_2bytes, write_8bytes, write_string,
}
use drone_server.Chunk.{ChunkStream}
use drone_server.Chunk.Writing.{Message}
use drone_server.Media.Stream.{Stream, is_some, join}
use drone_server.Prelude.{
  Bool-cases, List, Option, [], ap, arith, false, inl, inr, length, refl, some, subst, sym, true, ℕ,
  ◌<◌, ◌∙◌, ◌∷◌, ◌≡◌, ◌≤◌,
}
use drone_server.Prelude.Bytes.{Bytes, big_endian, bytes_eq, bytes_eq→eq, length-big_endian}
use drone_server.Prelude.Outcome.{Outcome, Yields, Yields-bind, fault, ok, out_of_fuel, ◌>>=◌}
use drone_server.Session.{Session, current, media_transfer, write_message}
use drone_server.Session.Commands.{
  current_stream_id, find_stream, join_stream, named, next_name, next_string, on_publish, url_of,
}
use drone_server.Session.Delivers.{write_message-Yields}
use drone_server.Session.Replies.{
  new_object, send_on_status, status_info, text_on_status, text_publish_start,
  text_start_publishing, text_status, write_values,
}
use drone_server.Session.Senders.{event_bytes, send_stream_begin}
use drone_server.Session.Sends.{Sends}
use drone_server.Session.World.{Action, StreamMap, World, update_stream}

join-refused : (k : ℕ) (st : Stream) → is_some st.publisher ≡ true → (join k true st).1 ≡ st
unfolding join
join-refused k st e = ground (arith, e)

update_stream-same :
    (streams : StreamMap) (url : Bytes) (u : Bytes)
    → update_stream streams url (streams url) u ≡ streams u
update_stream-same streams url u = elim (Bool-cases (bytes_eq url u)) [
  | inl e ↦ rw e (ap streams (bytes_eq→eq url u e))
  | inr e ↦ rw e refl
]

-- The map is as it was, and nothing was done to anybody.
abbrev pub ChangesNothing : World → World → Type 0
ChangesNothing w w' = ((url : Bytes) → w'.streams url ≡ w.streams url) × (w'.actions ≡ w.actions)

-- AMF0 of "onStatus", 0, null and { level: "status", code: "NetStream.Publish.Start",
-- description: "Start publishing" }.
abbrev pub publish_start_message : Bytes
publish_start_message =
    2 ∷ 0 ∷ 8 ∷ b'o' ∷ b'n' ∷ b'S' ∷ b't' ∷ b'a' ∷ b't' ∷ b'u' ∷ b's' ∷ 0 ∷ 0 ∷ 0 ∷ 0 ∷ 0 ∷ 0 ∷ 0
    ∷ 0 ∷ 0 ∷ 5 ∷ 3 ∷ 0 ∷ 5 ∷ b'l' ∷ b'e' ∷ b'v' ∷ b'e' ∷ b'l' ∷ 2 ∷ 0 ∷ 6 ∷ b's' ∷ b't' ∷ b'a'
    ∷ b't' ∷ b'u' ∷ b's' ∷ 0 ∷ 4 ∷ b'c' ∷ b'o' ∷ b'd' ∷ b'e' ∷ 2 ∷ 0 ∷ 23 ∷ b'N' ∷ b'e' ∷ b't'
    ∷ b'S' ∷ b't' ∷ b'r' ∷ b'e' ∷ b'a' ∷ b'm' ∷ b'.' ∷ b'P' ∷ b'u' ∷ b'b' ∷ b'l' ∷ b'i' ∷ b's'
    ∷ b'h' ∷ b'.' ∷ b'S' ∷ b't' ∷ b'a' ∷ b'r' ∷ b't' ∷ 0 ∷ 11 ∷ b'd' ∷ b'e' ∷ b's' ∷ b'c' ∷ b'r'
    ∷ b'i' ∷ b'p' ∷ b't' ∷ b'i' ∷ b'o' ∷ b'n' ∷ 2 ∷ 0 ∷ 16 ∷ b'S' ∷ b't' ∷ b'a' ∷ b'r' ∷ b't' ∷ b' '
    ∷ b'p' ∷ b'u' ∷ b'b' ∷ b'l' ∷ b'i' ∷ b's' ∷ b'h' ∷ b'i' ∷ b'n' ∷ b'g' ∷ 0 ∷ 0 ∷ 9 ∷ []

-- A message of a type, on message stream 0 and without a time.
abbrev pub untimed : ℕ → Bytes → Message
untimed type msg = record { time = 0; dtime = 0; type_id = type; stream_id = 0; size = length msg }

-- The session is sent the event StreamBegin for the stream, on chunk stream 2, and then the status
-- NetStream.Publish.Start on chunk stream 3; besides, its state is the transfer of media.
abbrev pub TellsPublish : ℕ → ℕ → Session → Session → Type 0
TellsPublish fuel stream_id s s' =
    let begin_bytes = 0 ∷ 0 ∷ big_endian 4 stream_id in
    (begun : Session) × (told : Session) × (write_message fuel 2 (untimed 4 begin_bytes) begin_bytes
        true s
      ≡ ok begun)
    × (write_message fuel 3 (untimed 20 publish_start_message) publish_start_message false begun
        ≡ ok told)
    × (s' ≡ record told { state = media_transfer })

pub Yields-given {ℓ κ} :
    {A : Type ℓ} {B : Type κ} (P : A → Type 0) (Q : B → Type 0) (r : Outcome A) (f : A → Outcome B)
    → Yields P r
    → ((a : A) → r ≡ ok a → P a → Yields Q (f a))
    → Yields Q (r >>= f)
Yields-given P Q (ok a) f h k = k a refl h
Yields-given P Q fault f h k = absurd h
Yields-given P Q out_of_fuel f h k = absurd h

publish_status-bytes :
    write_values
      (new_string text_on_status
        ∷ new_number 0
        ∷ new_null
        ∷ new_object (status_info text_status text_publish_start text_start_publishing)
        ∷ [])
      empty_buffer
    ≡ ok publish_start_message
unfolding write_values write status_info put bytes_eq write_object_end write_1byte write_2bytes
    write_string write_8bytes
publish_status-bytes = refl

send_on_status-publish :
    (fuel : ℕ) (s : Session)
    → send_on_status fuel text_status text_publish_start text_start_publishing s
      ≡ write_message fuel 3 (untimed 20 publish_start_message) publish_start_message false s
unfolding send_on_status
send_on_status-publish fuel s = rw publish_status-bytes refl

-- Both replies to publish, and the state after them.
abbrev publish_replies : ℕ → ℕ → Session → Outcome Session
publish_replies fuel i s = send_stream_begin fuel i s >>= λ s₁.
    send_on_status fuel text_status text_publish_start text_start_publishing s₁ >>= λ s₂.
    ok (record s₂ { state = media_transfer })

publish_replies-TellsPublish :
    (fuel i : ℕ) (s : Session)
    → 0 < s.input.max_chunk_size
    → 200 ≤ fuel
    → Yields (TellsPublish fuel i s) (publish_replies fuel i s)
unfolding send_stream_begin
publish_replies-TellsPublish fuel i s h l =
    Yields-given (Sends s) _ (send_stream_begin fuel i s) _
      (write_message-Yields fuel 2 _ (event_bytes 0 i) true s h
        (omega (arith, l, length-big_endian 4 i)))
      (λ begun e q. rw (send_on_status-publish fuel begun) (
        Yields-given (Sends begun) _
          (write_message fuel 3 (untimed 20 publish_start_message) publish_start_message false
            begun)
          _
          (write_message-Yields fuel 3 _ publish_start_message false begun
            (subst (λ j. 0 < j.max_chunk_size) (sym q.same_input) h) (omega (arith, l)))
          (λ told e' q'. (begun, told, e, e', refl))))

current_stream_id-known :
    (s : Session) (c : ChunkStream) → current s ≡ some c → current_stream_id s ≡ ok c.stream_id
current_stream_id-known s c e = rw (e, current_stream_id) refl

module _ (stoul : Bytes → Option ℕ) where
  join_second :
      (w : World) (st : Stream)
      → w.streams w.session.url ≡ some st
      → is_some st.publisher ≡ true
      → Yields (λ w'. ChangesNothing w w' × (w'.session ≡ w.session)) (join_stream stoul true w)
  unfolding join_stream find_stream
  join_second w st e p =
      rw (e, join_stream, find_stream, join-refused w.self st p)
        (
          (
            λ url.
                ap (λ o. update_stream w.streams w.session.url o url) (sym e)
                ∙ update_stream-same w.streams w.session.url url,
            refl,
          ),
          refl,
        )

  -- What publish does to the map and to others is what joining does, and then both replies are sent.
  pub publishes :
      (fuel : ℕ) (w : World) (b : SimpleBuffer) (name : Bytes × SimpleBuffer)
      (app : Bytes × SimpleBuffer) (c : ChunkStream) (P : StreamMap → List Action → Type 0)
      → next_name b ≡ ok name
      → next_string name.1 ≡ ok app
      → current w.session ≡ some c
      → 0 < w.session.input.max_chunk_size
      → 200 ≤ fuel
      → Yields
          (λ w'. P w'.streams w'.actions × (w'.session ≡ named app.0 name.0 w.session))
          (join_stream stoul true (record w { session = named app.0 name.0 w.session }))
      → Yields
          (λ w'.
            P w'.streams w'.actions
            × TellsPublish fuel c.stream_id (named app.0 name.0 w.session) w'.session)
          (on_publish stoul fuel w b)
  unfolding on_publish
  publishes fuel w b name app c P e₁ e₂ e₃ h l taken =
      let s₀ = named app.0 name.0 w.session in
      rw (e₁, e₂, on_publish)
        (Yields-bind (λ w'. P w'.streams w'.actions × (w'.session ≡ s₀)) _
          (join_stream stoul true (record w { session = s₀ })) _ taken
          (λ w₁ q.
            let replies =
              subst
                (λ s.
                  Yields (TellsPublish fuel c.stream_id s₀) (publish_replies fuel c.stream_id s))
                (sym q.1) (publish_replies-TellsPublish fuel c.stream_id s₀ h l) in
            rw (current_stream_id-known w₁.session c (ap current q.1 ∙ e₃)) (
              Yields-bind (TellsPublish fuel c.stream_id s₀) _
                (publish_replies fuel c.stream_id w₁.session) _ replies (λ s' t. (q.0, t)))))

  -- A session that publishes a stream which has a publisher is sent StreamBegin and the status
  -- NetStream.Publish.Start, as if it had become the publisher, and goes on to media transfer, while the
  -- map of streams stays as it was and nobody else is sent anything. The command's name and application are
  -- read without a fault, its chunk stream is known, the chunk size is not zero, and the fuel is 200 or
  -- more.
  pub on_publish-second :
      (fuel : ℕ) (w : World) (b : SimpleBuffer) (name : Bytes × SimpleBuffer)
      (app : Bytes × SimpleBuffer) (c : ChunkStream) (st : Stream)
      → next_name b ≡ ok name
      → next_string name.1 ≡ ok app
      → w.streams (url_of app.0 name.0) ≡ some st
      → is_some st.publisher ≡ true
      → current w.session ≡ some c
      → 0 < w.session.input.max_chunk_size
      → 200 ≤ fuel
      → Yields
          (λ w'.
            ChangesNothing w w'
            × TellsPublish fuel c.stream_id (named app.0 name.0 w.session) w'.session)
          (on_publish stoul fuel w b)
  on_publish-second fuel w b name app c st e₁ e₂ e₃ p e₄ h l =
      publishes fuel w b name app c
        (λ streams actions. ((url : Bytes) → streams url ≡ w.streams url) × (actions ≡ w.actions))
        e₁ e₂ e₄ h l (join_second (record w { session = named app.0 name.0 w.session }) st e₃ p)
