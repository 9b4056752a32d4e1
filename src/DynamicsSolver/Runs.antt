-- ===== src/DynamicsSolver/Runs.antt =====
-- The runs of backend/src/modules/dynamics_solver.cpp: every step keeps what the counters count and where the
-- tasks are.
use ai_solo_coder_task_b.Prelude.{ℕ, ◌+◌, ◌≡◌, ap, List, ◌∷◌, ◌++◌, length, arith}
use ai_solo_coder_task_b.Prelude.Closure.{Closure-keeps}
use ai_solo_coder_task_b.Double.{Double}
use ai_solo_coder_task_b.Sensor.{ShotRecord}
use ai_solo_coder_task_b.DynamicsSolver.{
  SolverTask, SolverResult, DynamicsSolver, Step, Reach, stop, execute_task, finish,
  count_completed, starting, stopping, join, submit, push, cancel, take, complete, count, deliver,
  create,
}
use ai_solo_coder_task_b.DynamicsSolver.Places.{
  IsSolver, occurs, occurs-out, length-out, ltb-less, start-IsSolver, begin_submit-IsSolver,
  enqueue-IsSolver, take_task-IsSolver, cancel_task-IsSolver,
}

module _ {W : Type 0} ⦃d : Double W⦄ where
  finish-IsSolver :
      (fresh : ShotRecord W) (elapsed_ms : W) (before : List (SolverTask W)) (task : SolverTask W)
      (after : List (SolverTask W)) (s : DynamicsSolver W)
      → s.working ≡ before ++ (task ∷ after)
      → IsSolver s
      → IsSolver (finish fresh elapsed_ms task (before ++ after) s)
  unfolding finish execute_task
  finish-IsSolver fresh elapsed_ms before task after s e h = record {
    conserved = λ j. omega (
      arith,
      h.conserved j,
      ap (occurs (λ t. t.task_id) j) e,
      occurs-out (λ t. t.task_id) j before task after,
    );
    pending = omega (arith, h.pending, ap length e, length-out before task after);
    completed = h.completed;
    busy = omega (arith, h.busy, ap length e, length-out before task after);
  }

  count-IsSolver :
      (before : List (SolverResult W)) (result : SolverResult W) (after : List (SolverResult W))
      (s : DynamicsSolver W)
      → s.uncounted ≡ before ++ (result ∷ after)
      → IsSolver s
      → IsSolver (count_completed result (before ++ after) s)
  unfolding count_completed
  count-IsSolver before result after s e h = record {
    conserved = λ j. omega (
      arith,
      h.conserved j,
      ap (occurs (λ r. r.task_id) j) e,
      occurs-out (λ r. r.task_id) j before result after,
    );
    pending = h.pending;
    completed = omega (arith, h.completed);
    busy = omega (arith, h.busy, ap length e, length-out before result after);
  }

  deliver-IsSolver :
      (before : List (SolverResult W)) (result : SolverResult W) (after : List (SolverResult W))
      (s : DynamicsSolver W)
      → s.counted ≡ before ++ (result ∷ after)
      → IsSolver s
      → IsSolver (record s { counted = before ++ after; delivered = result ∷ s.delivered })
  deliver-IsSolver before result after s e h = record {
    conserved = λ j. omega (
      arith,
      h.conserved j,
      ap (occurs (λ r. r.task_id) j) e,
      occurs-out (λ r. r.task_id) j before result after,
    );
    pending = h.pending;
    completed = omega (arith, h.completed, ap length e, length-out before result after);
    busy = omega (arith, h.busy, ap length e, length-out before result after);
  }

  Step-IsSolver : (s t : DynamicsSolver W) → Step s t → IsSolver s → IsSolver t
  unfolding stop
  Step-IsSolver s t starting h = start-IsSolver s h
  Step-IsSolver s t stopping h = record {
    conserved = h.conserved;
    pending = h.pending;
    completed = h.completed;
    busy = h.busy;
  }
  Step-IsSolver s t (join r e u f) h = record {
    conserved = h.conserved;
    pending = h.pending;
    completed = h.completed;
    busy = omega (arith, ap length e, ap length u, ap length f);
  }
  Step-IsSolver s t (submit task) h = begin_submit-IsSolver task s h
  Step-IsSolver s t (push before task after e) h = enqueue-IsSolver before task after s e h
  Step-IsSolver s t (cancel id) h = cancel_task-IsSolver id s h
  Step-IsSolver s t (take before task after e top room) h =
      take_task-IsSolver before task after s e
        (ltb-less (length s.working + length s.uncounted + length s.counted) s.workers room) h
  Step-IsSolver s t (complete fresh elapsed_ms before task after e) h =
      finish-IsSolver fresh elapsed_ms before task after s e h
  Step-IsSolver s t (count before result after e) h = count-IsSolver before result after s e h
  Step-IsSolver s t (deliver before result after e) h = deliver-IsSolver before result after s e h

  create-IsSolver : (num_threads : ℕ) → IsSolver (create {W = W} num_threads)
  unfolding create
  create-IsSolver num_threads = record {
    conserved = λ j. omega arith;
    pending = omega arith;
    completed = omega arith;
    busy = omega arith;
  }

  -- However the threads and the callers take turns: each identifier stands as often in the places of the
  -- tasks, from submitting to delivered or dropped, as it was given. `pending_count` counts the tasks in
  -- the queue and those worked on, `completed_count` those that were counted when they ended, with a
  -- result, or dropped, both on 64 bits, and no more tasks are in the hands of threads, up to the handing
  -- over, than there are threads.
  pub Reach-IsSolver :
      (num_threads : ℕ) (s : DynamicsSolver W) → Reach (create num_threads) s → IsSolver s
  Reach-IsSolver num_threads s r =
      Closure-keeps IsSolver Step-IsSolver (create-IsSolver num_threads) r
