-- ===== src/Tcp/Steps.antt =====
-- The calls and completions that a session of tcp_session.hpp sees.
use drone_server.Prelude.{Bool, List, [], suc, true, ℕ, ◌++◌, ◌∷◌, ◌≡◌}
use drone_server.Prelude.Bytes.{Bytes}
use drone_server.Tcp.{
  TcpSession, async_write, close_session, new_tcp_session, write_done, write_failed,
}

-- A completion comes only for a write that is under way.
-- What the session was given to send, in order, and how many writes came to their end.
pub data Run : TcpSession → List Bytes → ℕ → Type 0 where
  begins : Run new_tcp_session [] 0
  queued_after :
      {s : TcpSession} {msgs : List Bytes} {n : ℕ} (msg : Bytes) (flush : Bool)
      → Run s msgs n
      → Run (async_write msg flush s) (msgs ++ msg ∷ []) n
  completed_after :
      {s : TcpSession} {msgs : List Bytes} {n : ℕ}
      → s.sending ≡ true
      → Run s msgs n
      → Run (write_done s) msgs (suc n)
  failed_after :
      {s : TcpSession} {msgs : List Bytes} {n : ℕ}
      → s.sending ≡ true
      → Run s msgs n
      → Run (write_failed s) msgs n
  closed_later :
      {s : TcpSession} {msgs : List Bytes} {n : ℕ} → Run s msgs n → Run (close_session s) msgs n
