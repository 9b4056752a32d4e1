-- ===== src/DynamicsSolver/Tests.antt =====
-- A solver with one thread, and the theorem at a run of it.
use ai_solo_coder_task_b.Prelude.{ℕ, ◌≡◌, refl, [], ◌∷◌}
use ai_solo_coder_task_b.Prelude.Int.{ℤ}
use ai_solo_coder_task_b.Prelude.Closure.{here, next}
use ai_solo_coder_task_b.Double.Fixed.{fixed}
use ai_solo_coder_task_b.Sensor.{CrossbowType}
use ai_solo_coder_task_b.BallisticSimulator.Tests.{fresh}
use ai_solo_coder_task_b.DynamicsSolver.{
  SolverTask, DynamicsSolver, Reach, create, start, begin_submit, enqueue, cancel_task, take_task,
  finish, count_completed, execute_task, starting, submit, push, cancel, take, complete, count,
}
use ai_solo_coder_task_b.DynamicsSolver.Places.{IsSolver}
use ai_solo_coder_task_b.DynamicsSolver.Runs.{Reach-IsSolver}

abbrev m : ℕ → ℤ
m n = fixed.lit n 0

abbrev crossbow : CrossbowType ℤ
crossbow = record {
  id = 1;
  name = "n";
  dynasty = "d";
  draw_weight = m 80;
  bow_length = m 1;
  string_length = m 1;
  arrow_mass = m 1;
  effective_range = m 100;
  max_range = m 200;
}

abbrev task : ℕ → SolverTask ℤ
task id = record {
  task_id = id;
  crossbow = crossbow;
  initial_velocity = m 50;
  launch_angle = m 15;
  wind_speed_ms = m 0;
  wind_direction_deg = m 0;
  time_step = fixed.lit 1 3;
  priority = 1;
}

abbrev submitted : DynamicsSolver ℤ
submitted = begin_submit (task 0) (begin_submit (task 0) (start (create 1)))

abbrev queued : DynamicsSolver ℤ
queued = enqueue (task 2) [] (enqueue (task 1) (task 2 ∷ []) submitted)

abbrev cancelled : DynamicsSolver ℤ
cancelled = (cancel_task 2 queued).1

abbrev taken : DynamicsSolver ℤ
taken = take_task (task 2) (task 1 ∷ []) cancelled

abbrev working : DynamicsSolver ℤ
working = take_task (task 1) [] taken

abbrev ended : DynamicsSolver ℤ
ended =
    count_completed (execute_task fresh (m 1) (task 1)) [] (finish fresh (m 1) (task 1) [] working)

dropped_one : taken.dropped ≡ task 2 ∷ []
unfolding create start begin_submit enqueue cancel_task take_task
dropped_one = refl

submitting_run : Reach (create 1) submitted
submitting_run = next (next (next here starting) (submit (task 0))) (submit (task 0))

queued_run : Reach (create 1) queued
unfolding create start begin_submit enqueue
queued_run =
    next (next submitting_run (push (task 2 ∷ []) (task 1) [] refl)) (push [] (task 2) [] refl)

working_run : Reach (create 1) working
unfolding create start begin_submit enqueue cancel_task take_task
working_run =
    next (next (next queued_run (cancel 2)) (take [] (task 2) (task 1 ∷ []) refl (refl, tt) refl))
      (take [] (task 1) [] refl tt refl)

ended_run : Reach (create 1) ended
unfolding create start begin_submit enqueue cancel_task take_task finish
ended_run =
    next (next working_run (complete fresh (m 1) [] (task 1) [] refl))
      (count [] (execute_task fresh (m 1) (task 1)) [] refl)

Reach-IsSolver_example : IsSolver ended
Reach-IsSolver_example = Reach-IsSolver 1 ended ended_run
