-- ===== src/DynamicsSolver.antt =====
-- backend/src/modules/dynamics_solver.cpp and its header: tasks in a priority queue, and the threads that work on
-- them. What a thread does under the mutex, or in one atomic operation, is a step; so
-- is handing over a result. Tasks with the same priority leave the queue in any order.
pub mod Places
pub mod Runs
mod Tests
use Prim.Native.String.{String}
use ai_solo_coder_task_b.Prelude.{
  ℕ, ◌+◌, ◌-◌, ◌%◌, ◌^◌, ◌≡◌, Bool, true, false, List, [], ◌∷◌, ◌++◌, ltb, leb, ◌==◌, if◌then◌else◌,
  length, All,
}
use ai_solo_coder_task_b.Prelude.Closure.{Closure}
use ai_solo_coder_task_b.Double.{Double}
use ai_solo_coder_task_b.Sensor.{CrossbowType, TrajectoryPoint, ShotRecord}
use ai_solo_coder_task_b.Metrics.{increment}
use ai_solo_coder_task_b.DynamicsModel.Flight.{simulate_trajectory}
use ai_solo_coder_task_b.DynamicsModel.Results.{calculate_shot_results}

pub record SolverTask (W : Type 0) : Type 0 where
  pub task_id : ℕ
  pub crossbow : CrossbowType W
  pub initial_velocity : W
  pub launch_angle : W
  pub wind_speed_ms : W
  pub wind_direction_deg : W
  pub time_step : W
  pub priority : ℕ

pub record SolverResult (W : Type 0) : Type 0 where
  pub task_id : ℕ
  pub success : Bool
  pub error_message : String
  pub trajectory : List (TrajectoryPoint W)
  pub shot_record : ShotRecord W
  pub elapsed_ms : W

-- The members, and where the tasks are that are in no member: those with an identifier that are not yet in
-- the queue, those that a thread works on, the results whose end `completed_count` does not count yet, and those
-- that are counted and not handed over. The last three fields keep what has been: the results handed over, the tasks dropped, the identifiers given.
pub record DynamicsSolver (W : Type 0) : Type 0 where
  pub num_threads : ℕ
  pub workers : ℕ
  pub running : Bool
  pub next_task_id : ℕ
  pub pending_count : ℕ
  pub completed_count : ℕ
  pub task_queue : List (SolverTask W)
  pub cancelled_tasks : List ℕ
  pub submitting : List (SolverTask W)
  pub working : List (SolverTask W)
  pub uncounted : List (SolverResult W)
  pub counted : List (SolverResult W)
  pub delivered : List (SolverResult W)
  pub dropped : List (SolverTask W)
  pub issued : List ℕ

-- `fetch_sub(1)` on a `size_t`.
abbrev pub decrement : ℕ → ℕ
decrement n = (n + (2 ^ 64 - 1)) % 2 ^ 64

abbrev pub contains : ℕ → List ℕ → Bool
contains id [] = false
contains id (i ∷ ids) = let rest = contains id ids in if i == id then true else rest

abbrev erase : ℕ → List ℕ → List ℕ
erase id [] = []
erase id (i ∷ ids) = let rest = erase id ids in if i == id then ids else i ∷ rest

module _ {W : Type 0} where
  unfoldable pub create : ℕ → DynamicsSolver W
  create num_threads = record {
    num_threads = num_threads;
    workers = 0;
    running = false;
    next_task_id = 1;
    pending_count = 0;
    completed_count = 0;
    task_queue = [];
    cancelled_tasks = [];
    submitting = [];
    working = [];
    uncounted = [];
    counted = [];
    delivered = [];
    dropped = [];
    issued = [];
  }

  unfoldable pub start : DynamicsSolver W → DynamicsSolver W
  start s =
      if s.running then s else record s { running = true; workers = s.workers + s.num_threads }

  -- The first part of `stop`; the second waits for the threads, and is the step `join`.
  unfoldable pub stop : DynamicsSolver W → DynamicsSolver W
  stop s = record s { running = false }

  -- `submit_task` and `submit_task_sync` up to the lock.
  unfoldable pub begin_submit : SolverTask W → DynamicsSolver W → DynamicsSolver W
  begin_submit task s = record s {
    next_task_id = increment s.next_task_id;
    submitting = record task { task_id = s.next_task_id } ∷ s.submitting;
    issued = s.next_task_id ∷ s.issued;
  }

  -- Under the lock; `others` are those that are still to come.
  unfoldable pub enqueue : SolverTask W → List (SolverTask W) → DynamicsSolver W → DynamicsSolver W
  enqueue task others s = record s {
    submitting = others;
    task_queue = task ∷ s.task_queue;
    pending_count = increment s.pending_count;
  }

  unfoldable pub cancel_task : ℕ → DynamicsSolver W → Bool × DynamicsSolver W
  cancel_task id s =
      if contains id s.cancelled_tasks
      then (false, s)
      else (true, record s { cancelled_tasks = id ∷ s.cancelled_tasks })

  -- The top of the queue is taken, `others` stay; a cancelled task is dropped.
  unfoldable pub take_task :
      SolverTask W → List (SolverTask W) → DynamicsSolver W → DynamicsSolver W
  take_task task others s =
      if contains task.task_id s.cancelled_tasks
      then record s {
        task_queue = others;
        cancelled_tasks = erase task.task_id s.cancelled_tasks;
        pending_count = decrement s.pending_count;
        completed_count = increment s.completed_count;
        dropped = task ∷ s.dropped;
      }
      else record s { task_queue = others; working = task ∷ s.working }

module _ {W : Type 0} ⦃d : Double W⦄ where
  -- `fresh` is the shot record as declared. Nothing that is called throws, but for want of memory.
  unfoldable pub execute_task : ShotRecord W → W → SolverTask W → SolverResult W
  unfolding simulate_trajectory calculate_shot_results
  execute_task fresh elapsed_ms task =
      let trajectory =
        simulate_trajectory task.crossbow task.initial_velocity task.launch_angle task.wind_speed_ms
          task.wind_direction_deg task.time_step in
      record {
        task_id = task.task_id;
        success = true;
        error_message = "";
        trajectory = trajectory;
        shot_record = calculate_shot_results task.crossbow fresh trajectory;
        elapsed_ms = elapsed_ms;
      }

  -- The task is executed and no longer pending; `count_completed` is the operation after it.
  unfoldable pub finish :
      ShotRecord W → W → SolverTask W → List (SolverTask W) → DynamicsSolver W → DynamicsSolver W
  unfolding execute_task
  finish fresh elapsed_ms task others s = record s {
    working = others;
    uncounted = execute_task fresh elapsed_ms task ∷ s.uncounted;
    pending_count = decrement s.pending_count;
  }

  unfoldable pub count_completed :
      SolverResult W → List (SolverResult W) → DynamicsSolver W → DynamicsSolver W
  count_completed result others s = record s {
    uncounted = others;
    counted = result ∷ s.counted;
    completed_count = increment s.completed_count;
  }

  pub data Step (s : DynamicsSolver W) : DynamicsSolver W → Type 0 where
    starting : Step s (start s)
    stopping : Step s (stop s)
    join :
        s.running ≡ false
        → s.working ≡ []
        → s.uncounted ≡ []
        → s.counted ≡ []
        → Step s (record s { workers = 0 })
    submit : (task : SolverTask W) → Step s (begin_submit task s)
    push :
        (before : List (SolverTask W)) (task : SolverTask W) (after : List (SolverTask W))
        → s.submitting ≡ before ++ (task ∷ after)
        → Step s (enqueue task (before ++ after) s)
    cancel : (id : ℕ) → Step s (cancel_task id s).1
    take :
        (before : List (SolverTask W)) (task : SolverTask W) (after : List (SolverTask W))
        → s.task_queue ≡ before ++ (task ∷ after)
        → All (λ q. leb q.priority task.priority ≡ true) (before ++ after)
        → ltb (length s.working + length s.uncounted + length s.counted) s.workers ≡ true
        → Step s (take_task task (before ++ after) s)
    complete :
        (fresh : ShotRecord W) (elapsed_ms : W) (before : List (SolverTask W)) (task : SolverTask W)
        (after : List (SolverTask W))
        → s.working ≡ before ++ (task ∷ after)
        → Step s (finish fresh elapsed_ms task (before ++ after) s)
    count :
        (before : List (SolverResult W)) (result : SolverResult W) (after : List (SolverResult W))
        → s.uncounted ≡ before ++ (result ∷ after)
        → Step s (count_completed result (before ++ after) s)
    deliver :
        (before : List (SolverResult W)) (result : SolverResult W) (after : List (SolverResult W))
        → s.counted ≡ before ++ (result ∷ after)
        → Step s (record s { counted = before ++ after; delivered = result ∷ s.delivered })

  abbrev pub Reach : DynamicsSolver W → DynamicsSolver W → Type 0
  Reach = Closure Step
