-- ===== src/Session/Rounds.antt =====
-- What each message keeps, the loop of `handle` of rtmp_session.cpp keeps.
use drone_server.Chunk.{Answer, complete, incomplete, refused}
use drone_server.Chunk.Receiving.{Input, has_message, read_chunk_stream}
use drone_server.Prelude.{
  Option, Option-cases, inl, inr, length, ltb, refl, suc, zero, ℕ, ◌&&◌, ◌==◌, ◌||◌, ◌≡◌,
}
use drone_server.Prelude.Bytes.{Bytes}
use drone_server.Prelude.Outcome.{Outcome, Permits, Permits-bind, Permits-if, Permits-imp}
use drone_server.Session.{Session, current}
use drone_server.Session.Commands.{handle_command_message}
use drone_server.Session.Handling.{
  after_read, answer_complete, count_message, dispatch, go_on, handle_chunk_stream, handle_chunks,
  handle_message, handle_rounds, with_input,
}
use drone_server.Session.Steadiness.{count_message-state, handle_control_message-state}
use drone_server.Session.World.{World, handle_media_message, with_session}

-- A relation between the worlds before and after that holds where only the session changed, and its
-- state did not, and that each media message and each command keeps.
pub record IsKeptBy (stoul : Bytes → Option ℕ) (fuel fresh_tid : ℕ) (R : World → World → Type 0)
    : Type 0 where
  pub same : (w : World) (s : Session) → s.state ≡ w.session.state → R w (record w { session = s })
  pub trans : (u v w : World) → R u v → R v w → R u w
  pub media : (w : World) → Permits (λ out. R w out.1) (handle_media_message stoul w)
  pub command : (w : World) → Permits (R w) (handle_command_message stoul fuel fresh_tid w)

module _ (stoul : Bytes → Option ℕ) (fuel fresh_tid : ℕ) (R : World → World → Type 0)
    (keeps : IsKeptBy stoul fuel fresh_tid R) where
  -- The relation to the world that an answer comes with.
  abbrev Leaves : World → Answer × World → Type 0
  Leaves w out = R w out.1

  Leaves-after :
      (w v : World) (r : Outcome (Answer × World))
      → R w v
      → Permits (Leaves v) r
      → Permits (Leaves w) r
  Leaves-after w v r p h =
      Permits-imp (Leaves v) (Leaves w) r h (λ out q. keeps.trans w v out.1 p q)

  with_session-keeps :
      (w : World) (r : Outcome Session)
      → Permits (λ s. s.state ≡ w.session.state) r
      → Permits (R w) (with_session w r)
  with_session-keeps w r h =
      Permits-bind (λ s. s.state ≡ w.session.state) (R w) r _ h (λ s e. keeps.same w s e)

  answer_complete-Leaves :
      (w : World) (r : Outcome World) → Permits (R w) r → Permits (Leaves w) (answer_complete r)
  answer_complete-Leaves w r h = Permits-bind (R w) (Leaves w) r _ h (λ w' e. e)

  dispatch-Leaves :
      (type stream_id : ℕ) (w : World)
      → Permits (Leaves w) (dispatch stoul fuel fresh_tid type stream_id w)
  unfolding dispatch
  dispatch-Leaves type stream_id w =
      Permits-if _ (ltb type 7 && (stream_id == 0)) _ _
        (λ _.
          answer_complete-Leaves w _
            (with_session-keeps w _ (handle_control_message-state w.session)))
        λ _.
          Permits-if _ ((type == 8) || (type == 9) || (type == 18)) _ _ (λ _. keeps.media w)
            λ _.
              Permits-if _ (type == 20) _ _ (λ _. answer_complete-Leaves w _ (keeps.command w))
                (λ _. keeps.same w w.session refl)

  handle_chunk_stream-Leaves :
      (w : World) → Permits (Leaves w) (handle_chunk_stream stoul fuel fresh_tid w)
  unfolding handle_chunk_stream
  handle_chunk_stream-Leaves w = elim (Option-cases (current w.session)) [
    | inl e ↦ rw (e, handle_chunk_stream) tt
    | inr (c, e) ↦ rw (e, handle_chunk_stream) (dispatch-Leaves c.type c.stream_id w)
  ]

  handle_message-Leaves : (w : World) → Permits (Leaves w) (handle_message stoul fuel fresh_tid w)
  unfolding handle_message
  handle_message-Leaves w =
      Permits-bind (R w) (Leaves w) (with_session w (count_message fuel w.session)) _
        (with_session-keeps w _ (count_message-state fuel w.session))
        (λ w' p. Leaves-after w w' _ p (handle_chunk_stream-Leaves w'))

  go_on-Leaves :
      (again : World → Outcome (Answer × World)) (out : Answer × World)
      → ((v : World) → Permits (Leaves v) (again v))
      → Permits (Leaves out.1) (go_on stoul fuel fresh_tid again out)
  go_on-Leaves again (complete, w) h = h w
  go_on-Leaves again (incomplete, w) h = keeps.same w w.session refl
  go_on-Leaves again (refused, w) h = keeps.same w w.session refl

  with_input-keeps : (w : World) (i : Input) → R w (with_input w i)
  with_input-keeps w i = keeps.same w (record w.session { input = i }) refl

  after_read-Leaves :
      (again : World → Outcome (Answer × World)) (w : World) (out : Answer × Input)
      → ((v : World) → Permits (Leaves v) (again v))
      → Permits (Leaves w) (after_read stoul fuel fresh_tid again w out)
  after_read-Leaves again w (complete, i) h =
      let v = with_input w i in
      let read = with_input-keeps w i in
      Permits-if _ (has_message i) _ _
        (λ _.
          Permits-bind (Leaves w) (Leaves w) (handle_message stoul fuel fresh_tid v) _
            (Leaves-after w v _ read (handle_message-Leaves v))
            (λ out p. Leaves-after w out.1 _ p (go_on-Leaves again out h)))
        (λ _.
          Permits-if _ (length i.recv_buf == 0) _ _ (λ _. read)
            (λ _. Leaves-after w v _ read (h v)))
  after_read-Leaves again w (incomplete, i) h = with_input-keeps w i
  after_read-Leaves again w (refused, i) h = with_input-keeps w i

  handle_rounds-Leaves :
      (rounds : ℕ) (w : World) → Permits (Leaves w) (handle_rounds stoul fuel fresh_tid rounds w)
  unfolding handle_rounds
  handle_rounds-Leaves zero w = tt
  handle_rounds-Leaves (suc rounds) w =
      Permits-if _ (length w.session.input.recv_buf == 0) _ _ (λ _. keeps.same w w.session refl)
        (λ _.
          after_read-Leaves _ w (read_chunk_stream w.session.input)
            (λ v. handle_rounds-Leaves rounds v))

  pub handle_chunks-Leaves :
      (rounds : ℕ) (w : World)
      → Permits (λ out. R w out.1) (handle_chunks stoul fuel fresh_tid rounds w)
  unfolding handle_chunks
  handle_chunks-Leaves rounds w =
      Permits-if _ (length w.session.input.recv_buf == 0) _ _ (λ _. keeps.same w w.session refl)
        (λ _. handle_rounds-Leaves rounds w)
