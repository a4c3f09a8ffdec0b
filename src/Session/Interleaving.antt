-- ===== src/Session/Interleaving.antt =====
-- All sessions of the server, that take turns on the map `streams_`.
use drone_server.Chunk.Receiving.{update}
use drone_server.Prelude.{Option, [], none, ℕ, ◌≡◌}
use drone_server.Prelude.Bytes.{Bytes}
use drone_server.Prelude.Outcome.{ok}
use drone_server.Session.{Session}
use drone_server.Session.Delivery.{deliver}
use drone_server.Session.Reading.{close_connection, on_read}
use drone_server.Session.World.{StreamMap, World}

-- The sessions by number; each has its place in the table of the streams' peers.
pub record Server : Type 0 where
  pub sessions : ℕ → Session
  pub streams : StreamMap

-- The world that session `k` sees at the start of its turn.
abbrev pub world_of : ℕ → Server → World
world_of k v = record { session = v.sessions k; self = k; streams = v.streams; actions = [] }

module _ (stoul : Bytes → Option ℕ) (hmac : Bytes → Bytes → Option Bytes) (fuel : ℕ) where
  -- A turn: bytes arrive at a session, or its socket fails or is closed. What the turn does to other
  -- sessions is done at its end; it reads nothing of them.
  pub data Turn : Server → Server → Type 0 where
    reads_bytes :
        {v : Server} (k fresh_tid rounds : ℕ) (random : Option Bytes) (bytes : Bytes) (w : World)
        (sessions : ℕ → Session)
        → on_read stoul hmac fuel fresh_tid rounds random bytes (world_of k v) ≡ ok w
        → deliver fuel w.actions (update v.sessions k w.session) ≡ ok sessions
        → Turn v (record { sessions = sessions; streams = w.streams })
    breaks_off :
        {v : Server} (k : ℕ) (sessions : ℕ → Session)
        → deliver fuel
            (close_connection (world_of k v)).actions
            (update v.sessions k (close_connection (world_of k v)).session)
          ≡ ok sessions
        → Turn v
            (record { sessions = sessions; streams = (close_connection (world_of k v)).streams })

  -- The server starts with no streams; its sessions may be in any state.
  pub data ServerRun : Server → Type 0 where
    started :
        (sessions : ℕ → Session) → ServerRun (record { sessions = sessions; streams = λ url. none })
    after_turn : {v v' : Server} → ServerRun v → Turn v v' → ServerRun v'
