-- ===== src/Async/Jobs.antt =====
-- The order of the jobs of async_handler.hpp, and that none is left waiting.
use drone_server.Async.{
  AsyncHandler, Worker, add_job, at_loop, at_predicate, blocking, ended, handle_front, has_jobs,
  holds_lock, new_async_handler, notified, notify, stop_notify, stop_run, waiting, work, work_at,
}
use drone_server.Prelude.{
  Bool, List, [], ap, append_assoc, false, if_holds, if◌then◌else◌, not, refl, subst, sym, true, ℕ,
  ◌++◌, ◌||◌, ◌∙◌, ◌∷◌, ◌≡◌,
}

-- What the threads do, one step at a time, and the jobs that were added. A job is added under the lock; a
-- blocked thread may wake without a call.
pub data HandlerRun : AsyncHandler → List ℕ → Type 0 where
  fresh_handler : HandlerRun new_async_handler []
  job_added :
      {h : AsyncHandler} {jobs : List ℕ} (j : ℕ)
      → holds_lock h.worker ≡ false
      → HandlerRun h jobs
      → HandlerRun (add_job j h) (jobs ++ j ∷ [])
  run_cleared :
      {h : AsyncHandler} {jobs : List ℕ} → HandlerRun h jobs → HandlerRun (stop_run h) jobs
  stop_notified :
      {h : AsyncHandler} {jobs : List ℕ} → HandlerRun h jobs → HandlerRun (stop_notify h) jobs
  worked : {h : AsyncHandler} {jobs : List ℕ} → HandlerRun h jobs → HandlerRun (work h) jobs
  woke_up :
      {h : AsyncHandler} {jobs : List ℕ}
      → h.worker ≡ waiting
      → HandlerRun h jobs
      → HandlerRun (record h { worker = notified }) jobs

-- A thread that blocks has nothing to do.
abbrev pub BlocksIdle : Worker → List ℕ → Type 0
BlocksIdle blocking q = q ≡ []
BlocksIdle waiting q = q ≡ []
BlocksIdle p q = Unit {0}

pub record IsServed (h : AsyncHandler) (jobs : List ℕ) : Type 0 where
  pub in_order : h.done ++ h.msg_q ≡ jobs
  pub idle : BlocksIdle h.worker h.msg_q

BlocksIdle-notify : (p : Worker) (q : List ℕ) → BlocksIdle p q → BlocksIdle (notify p) q
BlocksIdle-notify at_loop q b = tt
BlocksIdle-notify at_predicate q b = tt
BlocksIdle-notify blocking q b = b
BlocksIdle-notify waiting q b = tt
BlocksIdle-notify notified q b = tt
BlocksIdle-notify ended q b = tt

BlocksIdle-added : (p : Worker) (q : List ℕ) → holds_lock p ≡ false → BlocksIdle (notify p) q
BlocksIdle-added at_loop q e = tt
BlocksIdle-added at_predicate q e = absurd cc
BlocksIdle-added blocking q e = absurd cc
BlocksIdle-added waiting q e = tt
BlocksIdle-added notified q e = tt
BlocksIdle-added ended q e = tt

BlocksIdle-loop : (run : Bool) (q : List ℕ) → BlocksIdle (if run then at_predicate else ended) q
BlocksIdle-loop true q = tt
BlocksIdle-loop false q = tt

handle_front-IsServed :
    (q : List ℕ) (h : AsyncHandler) (jobs : List ℕ)
    → h.done ++ q ≡ jobs
    → h.msg_q ≡ q
    → IsServed (handle_front q h) jobs
handle_front-IsServed [] h jobs e m = record { in_order = ap (◌++◌ h.done) m ∙ e; idle = tt }
handle_front-IsServed (j ∷ js) h jobs e m = record {
  in_order = append_assoc h.done (j ∷ []) js ∙ e;
  idle = tt;
}

no_jobs : (q : List ℕ) (b : Bool) → (has_jobs q || b) ≡ false → q ≡ []
no_jobs [] b e = refl
no_jobs (j ∷ js) b e = absurd cc

work_at-IsServed :
    (p : Worker) (h : AsyncHandler) (jobs : List ℕ)
    → IsServed h jobs
    → h.worker ≡ p
    → IsServed (work_at p h) jobs
work_at-IsServed at_loop h jobs s e = record {
  in_order = s.in_order;
  idle = BlocksIdle-loop h.run h.msg_q;
}
work_at-IsServed at_predicate h jobs s e =
    if_holds (λ h'. IsServed h' jobs) (has_jobs h.msg_q || not h.run) (handle_front h.msg_q h)
      (record h { worker = blocking }) (λ _. handle_front-IsServed h.msg_q h jobs s.in_order refl)
      (λ q. record { in_order = s.in_order; idle = no_jobs h.msg_q (not h.run) q })
work_at-IsServed blocking h jobs s e = record {
  in_order = s.in_order;
  idle = subst (λ p. BlocksIdle p h.msg_q) e s.idle;
}
work_at-IsServed notified h jobs s e = record { in_order = s.in_order; idle = tt }
work_at-IsServed waiting h jobs s e = s
work_at-IsServed ended h jobs s e = s

-- However jobs are added, the thread is stopped and it works or wakes: the jobs that were handled are the
-- first that were added, each once and in order, and the rest is queued; and the thread never blocks, or
-- is about to, while a job is queued, so that the notification of a job is never lost.
pub HandlerRun-IsServed : {h : AsyncHandler} {jobs : List ℕ} → HandlerRun h jobs → IsServed h jobs
unfolding add_job stop_run stop_notify work
HandlerRun-IsServed fresh_handler = record { in_order = refl; idle = tt }
HandlerRun-IsServed (job_added {h} {jobs} j e r) =
    let s = HandlerRun-IsServed r in
    record {
      in_order = sym (append_assoc h.done h.msg_q (j ∷ [])) ∙ ap (λ q. q ++ j ∷ []) s.in_order;
      idle = BlocksIdle-added h.worker (h.msg_q ++ j ∷ []) e;
    }
HandlerRun-IsServed (run_cleared {h} {jobs} r) =
    let s = HandlerRun-IsServed r in record { in_order = s.in_order; idle = s.idle }
HandlerRun-IsServed (stop_notified {h} {jobs} r) =
    let s = HandlerRun-IsServed r in
    record { in_order = s.in_order; idle = BlocksIdle-notify h.worker h.msg_q s.idle }
HandlerRun-IsServed (worked {h} {jobs} r) =
    work_at-IsServed h.worker h jobs (HandlerRun-IsServed r) refl
HandlerRun-IsServed (woke_up {h} {jobs} e r) =
    let s = HandlerRun-IsServed r in record { in_order = s.in_order; idle = tt }
