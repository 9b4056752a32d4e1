-- ===== src/BroadcastingReceiver.antt =====
-- backend/src/main.cpp: the receiver that hands each sample to three queues, its start and its stop, and
-- the gauges of the main loop. The threads move in any order; what was called on an output queue is
-- kept as a list of calls, so that the queue is what `run` of MessageQueue makes of it.
pub mod Transit
pub mod Startup
mod Tests
use Prim.Native.String.{String}
use ai_solo_coder_task_b.Prelude.{
  ℕ, ◌≡◌, Bool, true, false, Option, none, some, List, [], ◌∷◌, ◌++◌,
}
use ai_solo_coder_task_b.Prelude.Closure.{Closure}
use ai_solo_coder_task_b.Double.{Double}
use ai_solo_coder_task_b.Sensor.{SensorData, CrossbowType}
use ai_solo_coder_task_b.MessageQueue.{MessageQueue, Op, pushes, push, returned, wait_pop, size}
use ai_solo_coder_task_b.MessageQueue
use ai_solo_coder_task_b.Metrics.{
  Metrics, set_queue_size_ballistic, set_queue_size_accuracy, set_queue_size_alarm,
}

-- Where the broadcast thread stands: before it exists, at the test of `running_`, in `wait_pop`, before
-- each of the three pushes of a sample, at its end.
pub data Thread (A : Type 0) : Type 0 where
  unborn : Thread A
  testing : Thread A
  waiting : Thread A
  to_ballistic : A → Thread A
  to_accuracy : A → Thread A
  to_alarm : A → Thread A
  ended : Thread A

-- Where the main thread stands in `start` and `stop`: the thread is made before `running_` is set.
pub data Main : Type 0 where
  before : Main
  spawned : Main
  up : Main
  stopped : Main

-- `arrived` are the samples that the UDP receiver pushed so far.
pub record BroadcastingReceiver (A : Type 0) : Type 0 where
  pub raw_queue : MessageQueue A
  pub running : Bool
  pub thread : Thread A
  pub main : Main
  pub ballistic : List (Op A)
  pub accuracy : List (Op A)
  pub alarm : List (Op A)
  pub arrived : List A

-- A call that a consumer makes, which pushes nothing.
pub data Consumes {A : Type 0} : Op A → Type 0 where
  tries : Consumes Op.tries
  waits : (timed_out : Bool) → Consumes (Op.waits timed_out)
  stops : Consumes Op.stops

module _ {A : Type 0} where
  pub data Step (s : BroadcastingReceiver A) : BroadcastingReceiver A → Type 0 where
    arrive :
        (x : A)
        → Step s (record s { raw_queue = push x s.raw_queue; arrived = s.arrived ++ (x ∷ []) })
    spawn :
        s.main ≡ before → s.thread ≡ unborn → Step s (record s { thread = testing; main = spawned })
    set_running : s.main ≡ spawned → Step s (record s { running = true; main = up })
    go_on : s.thread ≡ testing → s.running ≡ true → Step s (record s { thread = waiting })
    leave : s.thread ≡ testing → s.running ≡ false → Step s (record s { thread = ended })
    take :
        (timed_out : Bool) (x : A) (rest : MessageQueue A)
        → s.thread ≡ waiting
        → wait_pop timed_out s.raw_queue ≡ returned (some x) rest
        → Step s (record s { raw_queue = rest; thread = to_ballistic x })
    give_up :
        (timed_out : Bool) (rest : MessageQueue A)
        → s.thread ≡ waiting
        → wait_pop timed_out s.raw_queue ≡ returned none rest
        → Step s (record s { raw_queue = rest; thread = testing })
    push_ballistic :
        (x : A)
        → s.thread ≡ to_ballistic x
        → Step s (record s { thread = to_accuracy x; ballistic = s.ballistic ++ (pushes x ∷ []) })
    push_accuracy :
        (x : A)
        → s.thread ≡ to_accuracy x
        → Step s (record s { thread = to_alarm x; accuracy = s.accuracy ++ (pushes x ∷ []) })
    push_alarm :
        (x : A)
        → s.thread ≡ to_alarm x
        → Step s (record s { thread = testing; alarm = s.alarm ++ (pushes x ∷ []) })
    use_ballistic :
        (op : Op A) → Consumes op → Step s (record s { ballistic = s.ballistic ++ (op ∷ []) })
    use_accuracy :
        (op : Op A) → Consumes op → Step s (record s { accuracy = s.accuracy ++ (op ∷ []) })
    use_alarm : (op : Op A) → Consumes op → Step s (record s { alarm = s.alarm ++ (op ∷ []) })
    halt :
        s.main ≡ up
        → Step s (record s {
          running = false;
          main = stopped;
          raw_queue = MessageQueue.stop s.raw_queue;
        })

  abbrev pub Reach : BroadcastingReceiver A → BroadcastingReceiver A → Type 0
  Reach = Closure Step

  -- The receiver before `start`, with the queue that `main` makes.
  abbrev pub begin : ℕ → BroadcastingReceiver A
  begin capacity = record {
    raw_queue = record { capacity = capacity; running = true; queue = [] };
    running = false;
    thread = unborn;
    main = before;
    ballistic = [];
    accuracy = [];
    alarm = [];
    arrived = [];
  }

  -- One round of the main loop, on the three queues.
  unfoldable pub tick : MessageQueue A → MessageQueue A → MessageQueue A → Metrics → Metrics
  unfolding set_queue_size_ballistic set_queue_size_accuracy set_queue_size_alarm size
  tick ballistic accuracy alarm m =
      set_queue_size_alarm (size alarm)
        (set_queue_size_accuracy (size accuracy) (set_queue_size_ballistic (size ballistic) m))
