-- ===== src/Tcp/Examples.antt =====
-- Sessions of tcp_session.hpp on concrete messages.
use drone_server.Prelude.{List, [], false, length, refl, true, ◌+◌, ◌∷◌, ◌≡◌}
use drone_server.Prelude.Bytes.{Bytes}
use drone_server.Tcp.{TcpSession, async_write, do_write, new_tcp_session}
use drone_server.Tcp.Draining.{complete_writes, complete_writes-drains}
use drone_server.Tcp.Order.{IsInOrder, Run-IsInOrder}
use drone_server.Tcp.Steps.{Run, begins, queued_after}

-- Two messages, of which the first was flushed.
abbrev two_queued : TcpSession
two_queued = async_write (2 ∷ []) false (async_write (1 ∷ []) true new_tcp_session)

abbrev two_messages : List Bytes
two_messages = (1 ∷ []) ∷ (2 ∷ []) ∷ []

two_queued-Run : Run two_queued two_messages 0
two_queued-Run = queued_after (2 ∷ []) false (queued_after (1 ∷ []) true begins)

Run-IsInOrder_example : IsInOrder two_queued two_messages 0
Run-IsInOrder_example = Run-IsInOrder two_queued-Run

complete_writes-drains_example :
    Run
      (complete_writes (length two_queued.send_queue) two_queued)
      two_messages
      (0 + length two_queued.send_queue)
    × (length (complete_writes (length two_queued.send_queue) two_queued).send_queue ≡ 0)
    × ((complete_writes (length two_queued.send_queue) two_queued).handed ≡ two_messages)
unfolding async_write do_write
complete_writes-drains_example = complete_writes-drains two_queued-Run refl refl
