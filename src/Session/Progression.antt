-- ===== src/Session/Progression.antt =====
-- The states that the loop of `handle` of rtmp_session.cpp leads a session through.
use drone_server.Prelude.{Option, arith, subst, sym, ℕ, ◌≡◌, ◌≤◌}
use drone_server.Prelude.Bytes.{Bytes}
use drone_server.Prelude.Outcome.{Permits, Permits-imp}
use drone_server.Session.{
  State, close, connect, create_stream, handshake_c2, init, media_transfer, publish_play,
}
use drone_server.Session.Handling.{handle_chunks}
use drone_server.Session.Rounds.{IsKeptBy, handle_chunks-Leaves}
use drone_server.Session.Steadiness.{Kept, handle_media_message-Kept}
use drone_server.Session.Transitions.{
  Moves, Transition, connects, creates, handle_command_message-Moves, starts, stays,
}
use drone_server.Session.World.{World}

-- Any number of transitions.
pub data Progresses : State → State → Type 0 where
  unmoved : {s : State} → Progresses s s
  advance : {s t u : State} → Transition s t → Progresses t u → Progresses s u

pub Progresses-trans : {s t u : State} → Progresses s t → Progresses t u → Progresses s u
Progresses-trans unmoved q = q
Progresses-trans (advance e p) q = advance e (Progresses-trans p q)

-- How far a session is.
abbrev pub rank : State → ℕ
rank init = 0
rank handshake_c2 = 1
rank connect = 2
rank create_stream = 3
rank publish_play = 4
rank media_transfer = 5
rank close = 6

pub Transition-rank : {s t : State} → Transition s t → rank s ≤ rank t
Transition-rank stays = omega arith
Transition-rank connects = omega arith
Transition-rank creates = omega arith
Transition-rank starts = omega arith

pub Progresses-rank : {s t : State} → Progresses s t → rank s ≤ rank t
Progresses-rank unmoved = omega arith
Progresses-rank (advance e p) = omega (arith, Transition-rank e, Progresses-rank p)

-- How far the session of one world is from that of another.
abbrev Advances : World → World → Type 0
Advances w w' = Progresses w.session.state w'.session.state

Progresses-same : {s t : State} → t ≡ s → Progresses s t
Progresses-same {s} {t} e = subst (Progresses s) (sym e) unmoved

module _ (stoul : Bytes → Option ℕ) (fuel fresh_tid : ℕ) where
  Advances-IsKeptBy : IsKeptBy stoul fuel fresh_tid Advances
  Advances-IsKeptBy = record {
    same = λ w s e. Progresses-same e;
    trans = λ u v w p q. Progresses-trans p q;
    media = λ w.
        Permits-imp (Kept stoul w) _ _ (handle_media_message-Kept stoul w)
          (λ out e. Progresses-same e);
    command = λ w.
        Permits-imp (Moves stoul w) _ _ (handle_command_message-Moves stoul fuel fresh_tid w)
          (λ w' e. advance e unmoved);
  }

  -- Where the loop of `handle` ends without a fault and within its fuel, whatever bytes were received, it
  -- has moved the state along the diagram, from connected to stream created to ready to publish or play to
  -- media transfer, by any number of steps, and not back.
  pub handle_chunks-Progresses :
      (rounds : ℕ) (w : World)
      → Permits
          (λ out.
            Progresses w.session.state out.1.session.state
            × (rank w.session.state ≤ rank out.1.session.state))
          (handle_chunks stoul fuel fresh_tid rounds w)
  handle_chunks-Progresses rounds w =
      Permits-imp (λ out. Advances w out.1) _ _
        (handle_chunks-Leaves stoul fuel fresh_tid Advances Advances-IsKeptBy rounds w)
        (λ out p. (p, Progresses-rank p))
