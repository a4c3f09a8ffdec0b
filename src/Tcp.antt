-- ===== src/Tcp.antt =====
-- src/core/src/DDS/core/tcp_session.hpp: what a session sends and how it is closed. Boost Asio is
-- outside: `handed` are the writes that `boost::asio::async_write` was asked for, in order, and a step
-- of Tcp/Steps says when the completion handler of the last one is called.
pub mod Steps
pub mod Order
pub mod Draining
mod Examples
use drone_server.Prelude.{Bool, List, [], drop, false, if◌then◌else◌, true, ℕ, ◌++◌, ◌+◌, ◌∷◌}
use drone_server.Prelude.Bytes.{Bytes}

pub record TcpSession : Type 0 where
  pub is_open : Bool
  pub send_queue : List Bytes
  pub sending : Bool
  pub handed : List Bytes
  -- How often `on_close` was called.
  pub closings : ℕ

-- `tcp_session(tcp::socket)`, of a connected socket.
abbrev pub new_tcp_session : TcpSession
new_tcp_session = record {
  is_open = true;
  send_queue = [];
  sending = false;
  handed = [];
  closings = 0;
}

unfoldable pub close_session : TcpSession → TcpSession
close_session s = if s.is_open then record s { is_open = false; closings = s.closings + 1 } else s

-- The front of the queue is handed to the socket and stays in the queue.
abbrev pub hand_front : List Bytes → TcpSession → TcpSession
hand_front [] s = s
hand_front (msg ∷ msgs) s =
    if s.sending then s else record s { sending = true; handed = s.handed ++ msg ∷ [] }

unfoldable pub do_write : TcpSession → TcpSession
do_write s = if s.is_open then hand_front s.send_queue s else close_session s

unfoldable pub async_write : Bytes → Bool → TcpSession → TcpSession
async_write msg flush s =
    let queued = record s { send_queue = s.send_queue ++ msg ∷ [] } in
    if flush then do_write queued else queued

-- The completion handler of a write, without an error: `on_write` does nothing in the one class that
-- there is.
unfoldable pub write_done : TcpSession → TcpSession
write_done s = do_write (record s { send_queue = drop 1 s.send_queue; sending = false })

-- The completion handler with an error: `on_error` closes the session, and `sending_` stays set.
unfoldable pub write_failed : TcpSession → TcpSession
write_failed s = close_session s
