-- ===== src/Async.antt =====
-- src/core/src/DDS/core/async_handler.hpp: the queue of jobs, the thread that handles them and the calls
-- of other threads. A job is a number; `handle` is what a class derived from it does, and is outside.
pub mod Jobs
mod Examples
use drone_server.Prelude.{Bool, List, [], false, if◌then◌else◌, not, true, ℕ, ◌++◌, ◌||◌, ◌∷◌}

-- Where the thread is: at `while (run)`, at the predicate of `wait` with the lock, about to block with the
-- lock, blocked without it, notified, or at its end.
pub data Worker : Type 0 where
  at_loop at_predicate blocking waiting notified ended : Worker

pub record AsyncHandler : Type 0 where
  pub run : Bool
  pub msg_q : List ℕ
  pub worker : Worker
  -- The jobs that `handle` was called with, in order.
  pub done : List ℕ

abbrev pub new_async_handler : AsyncHandler
new_async_handler = record { run = true; msg_q = []; worker = at_loop; done = [] }

-- Whether the thread holds `msg_qm`.
abbrev pub holds_lock : Worker → Bool
holds_lock at_predicate = true
holds_lock blocking = true
holds_lock p = false

-- `cv.notify_one()`: a thread that is not yet blocked does not notice.
abbrev pub notify : Worker → Worker
notify waiting = notified
notify p = p

unfoldable pub add_job : ℕ → AsyncHandler → AsyncHandler
add_job j h = record h { msg_q = h.msg_q ++ j ∷ []; worker = notify h.worker }

-- The two steps of `stop` before `join`; neither takes the lock.
unfoldable pub stop_run : AsyncHandler → AsyncHandler
stop_run h = record h { run = false }

unfoldable pub stop_notify : AsyncHandler → AsyncHandler
stop_notify h = record h { worker = notify h.worker }

-- `if (!msg_q.empty()) { … }`, and the lock is given back.
abbrev pub handle_front : List ℕ → AsyncHandler → AsyncHandler
handle_front [] h = record h { worker = at_loop }
handle_front (j ∷ js) h = record h { msg_q = js; worker = at_loop; done = h.done ++ j ∷ [] }

abbrev pub has_jobs : List ℕ → Bool
has_jobs [] = false
has_jobs (j ∷ js) = true

-- The next step of the thread, where the lock is free if it asks for it.
abbrev pub work_at : Worker → AsyncHandler → AsyncHandler
work_at at_loop h = record h { worker = if h.run then at_predicate else ended }
work_at at_predicate h =
    if has_jobs h.msg_q || not h.run then handle_front h.msg_q h else record h { worker = blocking }
work_at blocking h = record h { worker = waiting }
work_at notified h = record h { worker = at_predicate }
work_at waiting h = h
work_at ended h = h

unfoldable pub work : AsyncHandler → AsyncHandler
work h = work_at h.worker h
