-- ===== src/Session/Turns.antt =====
-- What every turn of a session keeps: the map `streams_` stays sound, and no session goes back.
use drone_server.Chunk.{Answer, complete, incomplete, refused}
use drone_server.Handshake.{Handshake, handle_c0c1, handle_c2}
use drone_server.Handshake.Replies.{send_s0s1s2}
use drone_server.Prelude.{Option, arith, if_holds, none, refl, some, subst, sym, ℕ, ◌++◌, ◌≡◌, ◌≤◌}
use drone_server.Prelude.Bytes.{Bytes}
use drone_server.Prelude.Outcome.{
  Outcome, Permits, Permits-bind, Permits-both, Permits-imp, fault, ok, out_of_fuel,
}
use drone_server.Session.{
  Session, State, close, connect, create_stream, handshake_c2, init, media_transfer, publish_play,
}
use drone_server.Session.Commanding.{handle_command_message-IsSound}
use drone_server.Session.Commands.{handle_command_message}
use drone_server.Session.Handling.{handle_chunks}
use drone_server.Session.Progression.{Transition-rank, rank}
use drone_server.Session.Reading.{
  after_c0c1, after_c2, close_connection, closed_after, handle, handle_in, in_state, on_read,
  reply_sent, with_handshake,
}
use drone_server.Session.Rounds.{IsKeptBy, handle_chunks-Leaves}
use drone_server.Session.Sharing.{IsSound, leave_stream-IsSound}
use drone_server.Session.Soundness.{KeepsSound, handle_media_message-IsSound}
use drone_server.Session.Steadiness.{Kept, handle_media_message-Kept}
use drone_server.Session.Transitions.{Moves, handle_command_message-Moves}
use drone_server.Session.World.{World, handle_media_message, is_state, on_close}

-- The map stays sound, and the session's state does not go back.
pub record Proceeds (w w' : World) : Type 0 where
  pub sound : KeepsSound w w'
  pub forward : rank w.session.state ≤ rank w'.session.state

rank-max : (s : State) → rank s ≤ 6
rank-max s = ground arith

is_init : (s t : State) → s ≡ t → rank s ≤ rank t
is_init s t e = subst (λ x. rank s ≤ rank x) e (omega arith)

on_close-Proceeds : (w : World) → Proceeds w (on_close w)
unfolding on_close
on_close-Proceeds w = record {
  sound = leave_stream-IsSound w.session.url w;
  forward = rank-max w.session.state;
}

Proceeds-refl :
    (w : World) (s : Session) → s.state ≡ w.session.state → Proceeds w (record w { session = s })
Proceeds-refl w s e = record { sound = λ h. h; forward = is_init w.session.state s.state (sym e) }

Proceeds-trans : (u v w : World) → Proceeds u v → Proceeds v w → Proceeds u w
Proceeds-trans u v w p q = record {
  sound = λ h. q.sound (p.sound h);
  forward = omega (arith, p.forward, q.forward);
}

pub close_connection-Proceeds : (w : World) → Proceeds w (close_connection w)
unfolding close_connection
close_connection-Proceeds w =
    if_holds (Proceeds w) (is_state w.session.state close) w (on_close w)
      (λ _. Proceeds-refl w w.session refl) (λ _. on_close-Proceeds w)

closed_after-Proceeds :
    (w : World) (out : Answer × World) → Proceeds w out.1 → Proceeds w (closed_after out)
closed_after-Proceeds w (complete, v) p = p
closed_after-Proceeds w (incomplete, v) p = p
closed_after-Proceeds w (refused, v) p = Proceeds-trans w v _ p (close_connection-Proceeds v)

-- The state goes from one that is at most as far.
moved_to :
    (w v : World) (t : State)
    → v.streams ≡ w.streams
    → rank w.session.state ≤ rank t
    → Proceeds w (in_state t v)
moved_to w v t e h = record { sound = λ s. subst IsSound (sym e) s; forward = h }

read_on : (w : World) (hs : Handshake) (buf : Bytes) → Proceeds w (with_handshake w hs buf)
read_on w hs buf =
    let input = record w.session.input { recv_buf = buf } in
    Proceeds-refl w (record w.session { hs = hs; input = input }) refl

reply_sent-streams :
    (w : World) (o : Option (Bytes × Handshake)) → (reply_sent w o).streams ≡ w.streams
reply_sent-streams w none = refl
reply_sent-streams w (some (bytes, hs)) = refl

module _ (stoul : Bytes → Option ℕ) (hmac : Bytes → Bytes → Option Bytes)
    (fuel fresh_tid rounds : ℕ) (random : Option Bytes) where
  Permits-sound :
      (w : World) (r : Outcome World)
      → (IsSound w.streams → Permits (λ w'. IsSound w'.streams) r)
      → Permits (KeepsSound w) r
  Permits-sound w (ok w') h = h
  Permits-sound w fault h = tt
  Permits-sound w out_of_fuel h = tt

  Permits-sound_answer :
      (w : World) (r : Outcome (Answer × World))
      → (IsSound w.streams → Permits (λ out. IsSound out.1.streams) r)
      → Permits (λ out. KeepsSound w out.1) r
  Permits-sound_answer w (ok out) h = h
  Permits-sound_answer w fault h = tt
  Permits-sound_answer w out_of_fuel h = tt

  Transition-rank_of :
      (w w' : World) → Moves stoul w w' → rank w.session.state ≤ rank w'.session.state
  Transition-rank_of w w' m = Transition-rank m

  Proceeds-IsKeptBy : IsKeptBy stoul fuel fresh_tid Proceeds
  Proceeds-IsKeptBy = record {
    same = Proceeds-refl;
    trans = Proceeds-trans;
    media = λ w.
        Permits-imp _ (λ out. Proceeds w out.1) _
          (Permits-both (λ out. KeepsSound w out.1) (Kept stoul w) (handle_media_message stoul w)
            (Permits-sound_answer w _ (handle_media_message-IsSound stoul w))
            (handle_media_message-Kept stoul w))
          (λ out h. record {
            sound = h.0;
            forward = is_init w.session.state out.1.session.state (sym h.1);
          });
    command = λ w.
        Permits-imp _ (Proceeds w) _
          (Permits-both (KeepsSound w) (Moves stoul w)
            (handle_command_message stoul fuel fresh_tid w)
            (Permits-sound w _ (handle_command_message-IsSound stoul fuel fresh_tid w))
            (handle_command_message-Moves stoul fuel fresh_tid w))
          (λ w' h. record { sound = h.0; forward = Transition-rank h.1 });
  }

  chunks_from :
      (w : World) → Permits (λ out. Proceeds w out.1) (handle_chunks stoul fuel fresh_tid rounds w)
  chunks_from w = handle_chunks-Leaves stoul fuel fresh_tid Proceeds Proceeds-IsKeptBy rounds w

  after_c0c1-Proceeds :
      (w : World) (out : Answer × Handshake × Bytes)
      → w.session.state ≡ init
      → Proceeds w (after_c0c1 stoul hmac fuel fresh_tid rounds random w out).1
  after_c0c1-Proceeds w (complete, hs, buf) e =
      moved_to w (reply_sent (with_handshake w hs buf) (send_s0s1s2 hmac hs random)) handshake_c2
        (reply_sent-streams (with_handshake w hs buf) (send_s0s1s2 hmac hs random))
        (subst (λ s. rank s ≤ 1) (sym e) (omega arith))
  after_c0c1-Proceeds w (incomplete, hs, buf) e = read_on w hs buf
  after_c0c1-Proceeds w (refused, hs, buf) e = read_on w hs buf

  after_c2-Proceeds :
      (w : World) (out : Answer × Handshake × Bytes)
      → w.session.state ≡ handshake_c2
      → Proceeds w (after_c2 stoul hmac fuel fresh_tid rounds random w out).1
  after_c2-Proceeds w (complete, hs, buf) e =
      moved_to w (with_handshake w hs buf) connect refl
        (subst (λ s. rank s ≤ 2) (sym e) (omega arith))
  after_c2-Proceeds w (incomplete, hs, buf) e = read_on w hs buf
  after_c2-Proceeds w (refused, hs, buf) e = read_on w hs buf

  handle_in-Proceeds :
      (s : State) (w : World)
      → w.session.state ≡ s
      → Permits (λ out. Proceeds w out.1) (handle_in stoul hmac fuel fresh_tid rounds random s w)
  unfolding handle_in
  handle_in-Proceeds init w e =
      after_c0c1-Proceeds w (handle_c0c1 hmac w.session.hs w.session.input.recv_buf) e
  handle_in-Proceeds handshake_c2 w e =
      after_c2-Proceeds w (handle_c2 hmac w.session.hs w.session.input.recv_buf) e
  handle_in-Proceeds close w e = Proceeds-refl w w.session refl
  handle_in-Proceeds connect w e = chunks_from w
  handle_in-Proceeds create_stream w e = chunks_from w
  handle_in-Proceeds publish_play w e = chunks_from w
  handle_in-Proceeds media_transfer w e = chunks_from w

  pub on_read-Proceeds :
      (bytes : Bytes) (w : World)
      → Permits (Proceeds w) (on_read stoul hmac fuel fresh_tid rounds random bytes w)
  unfolding on_read handle
  on_read-Proceeds bytes w =
      let v = with_handshake w w.session.hs (w.session.input.recv_buf ++ bytes) in
      Permits-bind (λ out. Proceeds v out.1) (Proceeds w)
        (handle_in stoul hmac fuel fresh_tid rounds random v.session.state v) _
        (handle_in-Proceeds v.session.state v refl)
        (λ out p.
          Proceeds-trans w v (closed_after out) (Proceeds-refl w v.session refl)
            (closed_after-Proceeds v out p))
