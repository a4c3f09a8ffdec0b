-- ===== src/Async/Examples.antt =====
-- Runs of async_handler.hpp.
use drone_server.Async.{
  AsyncHandler, add_job, new_async_handler, stop_notify, stop_run, waiting, work,
}
use drone_server.Async.Jobs.{
  HandlerRun, HandlerRun-IsServed, IsServed, fresh_handler, job_added, run_cleared, stop_notified,
  worked,
}
use drone_server.Prelude.{[], false, refl, ◌∷◌, ◌≡◌}

-- Two jobs are added, and the first is handled.
abbrev one_handled : AsyncHandler
one_handled = work (work (add_job 8 (add_job 7 new_async_handler)))

one_handled-HandlerRun : HandlerRun one_handled (7 ∷ 8 ∷ [])
unfolding add_job
one_handled-HandlerRun = worked (worked (job_added 8 refl (job_added 7 refl fresh_handler)))

HandlerRun-IsServed_example : IsServed one_handled (7 ∷ 8 ∷ [])
HandlerRun-IsServed_example = HandlerRun-IsServed one_handled-HandlerRun

-- `stop` clears `run` and notifies between the thread's test of the predicate and its blocking: the thread
-- blocks for good, and `join` waits for it.
abbrev stopped_late : AsyncHandler
stopped_late = work (stop_notify (stop_run (work (work new_async_handler))))

stopped_late-HandlerRun : HandlerRun stopped_late []
stopped_late-HandlerRun = worked (stop_notified (run_cleared (worked (worked fresh_handler))))

stopped_late-stuck :
    (stopped_late.run ≡ false)
    × (stopped_late.worker ≡ waiting)
    × (work stopped_late ≡ stopped_late)
unfolding work stop_run stop_notify
stopped_late-stuck = (refl, refl, refl)
