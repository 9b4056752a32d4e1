-- ===== src/BroadcastingReceiver/Tests.antt =====
-- The receiver at concrete inputs.

use ai_solo_coder_task_b.Prelude.{ℕ, ◌≡◌, refl, true, false, [], ◌∷◌}
use ai_solo_coder_task_b.Prelude.Closure.{here, next}
use ai_solo_coder_task_b.MessageQueue.{Op, pushes, pushed, push, wait_pop}
use ai_solo_coder_task_b.BroadcastingReceiver.{
  Thread, Consumes, BroadcastingReceiver, arrive, spawn, set_running, go_on, take, push_ballistic,
  use_ballistic, Reach, begin, to_accuracy, up,
}
use ai_solo_coder_task_b.BroadcastingReceiver.Transit.{IsForwarded, Reach-IsForwarded}
use ai_solo_coder_task_b.BroadcastingReceiver.Startup.{Reach-deaf, started_deaf}

-- Two samples for a queue of two, the first of which the thread has pushed once and a worker popped.
abbrev half_way : BroadcastingReceiver ℕ
half_way = record {
  raw_queue = record { capacity = 2; running = true; queue = 2 ∷ [] };
  running = true;
  thread = to_accuracy 1;
  main = up;
  ballistic = pushes 1 ∷ Op.tries ∷ [];
  accuracy = [];
  alarm = [];
  arrived = 1 ∷ 2 ∷ [];
}

half_way-Reach : Reach (begin 2) half_way
unfolding push wait_pop
half_way-Reach =
    let going = next (next (next here (spawn refl refl)) (set_running refl)) (go_on refl refl) in
    let both = next (next going (arrive 1)) (arrive 2) in
    next (next (next both (take false 1 _ refl refl)) (push_ballistic 1 refl))
      (use_ballistic Op.tries Consumes.tries)

Reach-IsForwarded_example : IsForwarded half_way
Reach-IsForwarded_example = Reach-IsForwarded 2 half_way-Reach

-- A sample that arrives after such a start stays where it is.
abbrev deaf : BroadcastingReceiver ℕ
deaf = record {
  raw_queue = record { capacity = 2; running = true; queue = 1 ∷ [] };
  running = true;
  thread = Thread.ended;
  main = up;
  ballistic = [];
  accuracy = [];
  alarm = [];
  arrived = 1 ∷ [];
}

deaf-Reach : Reach (started_deaf 2) deaf
unfolding push
deaf-Reach = next here (arrive 1)

Reach-deaf_example :
    Reach (begin {A = ℕ} 2) (started_deaf 2)
    × (pushed deaf.ballistic ≡ [])
    × (pushed deaf.accuracy ≡ [])
    × (pushed deaf.alarm ≡ [])
Reach-deaf_example = Reach-deaf 2 deaf-Reach
