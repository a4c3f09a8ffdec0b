-- ===== src/Session/Servers.antt =====
-- What holds of the server of rtmp_session.cpp however its sessions take turns.
use drone_server.Chunk.Receiving.{update}
use drone_server.Prelude.{Bool-cases, Option, arith, inl, inr, subst, sym, ℕ, ◌==◌, ◌≡◌, ◌≤◌}
use drone_server.Prelude.Bytes.{Bytes}
use drone_server.Prelude.Outcome.{Permits-given, ok}
use drone_server.Session.{Session}
use drone_server.Session.Delivery.{SameStates, deliver, deliver-SameStates}
use drone_server.Session.Interleaving.{
  Server, ServerRun, Turn, after_turn, breaks_off, reads_bytes, started, world_of,
}
use drone_server.Session.Progression.{rank}
use drone_server.Session.Reading.{close_connection}
use drone_server.Session.Sharing.{IsSound}
use drone_server.Session.Turns.{Proceeds, close_connection-Proceeds, on_read-Proceeds}
use drone_server.Session.World.{World}

-- Nobody goes back, and the map stays sound.
pub record ServerProceeds (v v' : Server) : Type 0 where
  pub map_sound : IsSound v.streams → IsSound v'.streams
  pub forward_all : (k : ℕ) → rank (v.sessions k).state ≤ rank (v'.sessions k).state

-- The end of a turn.
turn_over :
    (fuel k : ℕ) (v : Server) (w : World) (sessions : ℕ → Session)
    → Proceeds (world_of k v) w
    → deliver fuel w.actions (update v.sessions k w.session) ≡ ok sessions
    → ServerProceeds v (record { sessions = sessions; streams = w.streams })
turn_over fuel k v w sessions p e =
    let same : SameStates (update v.sessions k w.session) sessions =
      Permits-given (SameStates (update v.sessions k w.session)) _ sessions e
        (deliver-SameStates fuel w.actions (update v.sessions k w.session)) in
    record {
      map_sound = p.sound;
      forward_all = λ j.
          let kept : (sessions j).state ≡ (update v.sessions k w.session j).state = same j in
          subst (λ s. rank (v.sessions j).state ≤ rank s) (sym kept)
            (elim (Bool-cases (k == j)) [
              | inl q ↦ rw q (
                  subst (λ i. rank (v.sessions i).state ≤ rank w.session.state) (ground (arith, q))
                    p.forward)
              | inr q ↦ rw q (omega arith)
            ]);
    }

module _ (stoul : Bytes → Option ℕ) (hmac : Bytes → Bytes → Option Bytes) (fuel : ℕ) where
  -- What a turn keeps, whatever it reads.
  Turn-ServerProceeds : {v v' : Server} → Turn stoul hmac fuel v v' → ServerProceeds v v'
  Turn-ServerProceeds (reads_bytes {v} k fresh_tid rounds random bytes w sessions r d) =
      turn_over fuel k v w sessions
        (Permits-given (Proceeds (world_of k v)) _ w r
          (on_read-Proceeds stoul hmac fuel fresh_tid rounds random bytes (world_of k v)))
        d
  Turn-ServerProceeds (breaks_off {v} k sessions d) =
      turn_over fuel k v (close_connection (world_of k v)) sessions
        (close_connection-Proceeds (world_of k v)) d

  -- Whatever a session reads in its turn, and whenever a connection breaks: no session of the server goes
  -- back to an earlier state, not even one that the turn has sent something to.
  pub Turn-rank :
      {v v' : Server}
      → Turn stoul hmac fuel v v'
      → (k : ℕ) → rank (v.sessions k).state ≤ rank (v'.sessions k).state
  Turn-rank t = (Turn-ServerProceeds t).forward_all

  -- From a server without streams, in whatever order its sessions read and break: at each place of the
  -- map there is nothing, or a stream for that place in which somebody is, whose peers are distinct and
  -- whose publisher is one of them.
  pub ServerRun-IsSound : {v : Server} → ServerRun stoul hmac fuel v → IsSound v.streams
  ServerRun-IsSound (started sessions) = λ url. tt
  ServerRun-IsSound (after_turn r t) = (Turn-ServerProceeds t).map_sound (ServerRun-IsSound r)
