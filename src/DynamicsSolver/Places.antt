-- ===== src/DynamicsSolver/Places.antt =====
-- Where the tasks of backend/src/modules/dynamics_solver.cpp are, and what its counters count.
use ai_solo_coder_task_b.Prelude.{
  ℕ, suc, ◌+◌, ◌%◌, ◌^◌, ◌≡◌, refl, ap, Bool, true, false, List, [], ◌∷◌, ◌++◌, ◌==◌, ◌≤◌, ◌<◌, ltb,
  if◌then◌else◌, length, arith,
}
use ai_solo_coder_task_b.DynamicsSolver.{
  SolverTask, DynamicsSolver, start, begin_submit, enqueue, cancel_task, take_task, contains,
}

abbrev same : ℕ → ℕ → ℕ
same i j = if i == j then 1 else 0

module _ {A : Type 0} (id_of : A → ℕ) (j : ℕ) where
  -- How often the identifier stands in the list.
  abbrev pub occurs : List A → ℕ
  occurs [] = 0
  occurs (x ∷ xs) = same (id_of x) j + occurs xs

  pub occurs-out :
      (before : List A) (x : A) (after : List A)
      → occurs (before ++ (x ∷ after)) ≡ occurs (x ∷ (before ++ after))
  occurs-out [] x after = refl
  occurs-out (b ∷ before) x after = omega (arith, occurs-out before x after)

pub length-out :
    {A : Type 0} (before : List A) (x : A) (after : List A)
    → length (before ++ (x ∷ after)) ≡ suc (length (before ++ after))
length-out [] x after = refl
length-out (b ∷ before) x after = omega (arith, length-out before x after)

pub ltb-less : (m n : ℕ) → ltb m n ≡ true → m < n
ltb-less m n h = ground arith

module _ {W : Type 0} where
  -- The identifier of a task, wherever the task is.
  abbrev pub everywhere : ℕ → DynamicsSolver W → ℕ
  everywhere j s =
      occurs (λ t. t.task_id) j s.submitting
      + occurs (λ t. t.task_id) j s.task_queue
      + occurs (λ t. t.task_id) j s.working
      + occurs (λ r. r.task_id) j s.uncounted
      + occurs (λ r. r.task_id) j s.counted
      + occurs (λ r. r.task_id) j s.delivered
      + occurs (λ t. t.task_id) j s.dropped

  -- Each identifier is as often in one of the places as it was given. The pending tasks are those in the
  -- queue and those worked on; the completed ones are those with a result that is counted and those
  -- dropped. No more tasks are in the hands of threads than there are threads.
  pub record IsSolver (s : DynamicsSolver W) : Type 0 where
    pub conserved : (j : ℕ) → everywhere j s ≡ occurs (λ i. i) j s.issued
    pub pending : s.pending_count ≡ (length s.task_queue + length s.working) % 2 ^ 64
    pub completed :
        s.completed_count ≡ (length s.counted + length s.delivered + length s.dropped) % 2 ^ 64
    pub busy : length s.working + length s.uncounted + length s.counted ≤ s.workers

  either-IsSolver :
      (b : Bool) (s t : DynamicsSolver W) → IsSolver s → IsSolver t → IsSolver (if b then s else t)
  either-IsSolver true s t p q = p
  either-IsSolver false s t p q = q

  pub start-IsSolver : (s : DynamicsSolver W) → IsSolver s → IsSolver (start s)
  unfolding start
  start-IsSolver s h =
      either-IsSolver s.running s (record s { running = true; workers = s.workers + s.num_threads })
        h
        (record {
          conserved = h.conserved;
          pending = h.pending;
          completed = h.completed;
          busy = omega (arith, h.busy);
        })

  pub begin_submit-IsSolver :
      (task : SolverTask W) (s : DynamicsSolver W) → IsSolver s → IsSolver (begin_submit task s)
  unfolding begin_submit
  begin_submit-IsSolver task s h = record {
    conserved = λ j. ground (arith, h.conserved j);
    pending = h.pending;
    completed = h.completed;
    busy = h.busy;
  }

  module _ (before : List (SolverTask W)) (task : SolverTask W) (after : List (SolverTask W))
      (s : DynamicsSolver W) where
    pub enqueue-IsSolver :
        s.submitting ≡ before ++ (task ∷ after)
        → IsSolver s
        → IsSolver (enqueue task (before ++ after) s)
    unfolding enqueue
    enqueue-IsSolver e h = record {
      conserved = λ j. omega (
        arith,
        h.conserved j,
        ap (occurs (λ t. t.task_id) j) e,
        occurs-out (λ t. t.task_id) j before task after,
      );
      pending = omega (arith, h.pending);
      completed = h.completed;
      busy = h.busy;
    }

    pub take_task-IsSolver :
        s.task_queue ≡ before ++ (task ∷ after)
        → length s.working + length s.uncounted + length s.counted < s.workers
        → IsSolver s
        → IsSolver (take_task task (before ++ after) s)
    unfolding take_task
    take_task-IsSolver e room h =
        either-IsSolver (contains task.task_id s.cancelled_tasks) _ _
          (record {
            conserved = λ j. omega (
              arith,
              h.conserved j,
              ap (occurs (λ t. t.task_id) j) e,
              occurs-out (λ t. t.task_id) j before task after,
            );
            pending = omega (arith, h.pending, ap length e, length-out before task after);
            completed = omega (arith, h.completed);
            busy = h.busy;
          })
          (record {
            conserved = λ j. omega (
              arith,
              h.conserved j,
              ap (occurs (λ t. t.task_id) j) e,
              occurs-out (λ t. t.task_id) j before task after,
            );
            pending = omega (arith, h.pending, ap length e, length-out before task after);
            completed = h.completed;
            busy = omega (arith, room);
          })

  either_first-IsSolver :
      (b : Bool) (x y : Bool × DynamicsSolver W)
      → IsSolver x.1
      → IsSolver y.1
      → IsSolver (if b then x else y).1
  either_first-IsSolver true x y p q = p
  either_first-IsSolver false x y p q = q

  pub cancel_task-IsSolver :
      (id : ℕ) (s : DynamicsSolver W) → IsSolver s → IsSolver (cancel_task id s).1
  unfolding cancel_task
  cancel_task-IsSolver id s h =
      either_first-IsSolver (contains id s.cancelled_tasks) (false, s)
        (true, record s { cancelled_tasks = id ∷ s.cancelled_tasks }) h
        (record {
          conserved = h.conserved;
          pending = h.pending;
          completed = h.completed;
          busy = h.busy;
        })
