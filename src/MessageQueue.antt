-- ===== src/MessageQueue.antt =====
-- backend/include/message_queue.h, lines 16-83: `MessageQueue<T>`, the bounded queue between the
-- threads. Each operation holds the mutex, so it is one atomic step; `stop` writes one atomic flag.
-- A push on a full queue takes the oldest element off. With capacity 0 the source takes an element off
-- an empty `std::deque`, which is undefined behaviour: `IsValid` keeps the capacity above 0.
pub mod Order
mod Tests
use ai_solo_coder_task_b.Prelude.{
  ℕ, ◌≤◌, ◌<◌, Bool, true, false, ◌||◌, not, Option, none, some, List, [], ◌∷◌, ◌++◌, leb,
  if◌then◌else◌, length,
}

pub record MessageQueue {ℓ} (A : Type ℓ) : Type ℓ where
  pub capacity : ℕ
  pub running : Bool
  pub queue : List A

-- What a call of `wait_pop` has come to: the thread sleeps on, or the call returns, with an element
-- or (`none`) with `false`.
pub data WaitResult {ℓ} (A : Type ℓ) : Type ℓ where
  blocked : WaitResult A
  returned : Option A → MessageQueue A → WaitResult A

module _ {ℓ} {A : Type ℓ} where
  -- The constructor.
  unfoldable pub create : ℕ → MessageQueue A
  create capacity = record { capacity = capacity; running = true; queue = [] }

  abbrev pop_front : List A → List A
  pop_front [] = []
  pop_front (x ∷ xs) = xs

  -- A full queue gives up its oldest element.
  abbrev make_room : ℕ → List A → List A
  make_room capacity xs = if leb capacity (length xs) then pop_front xs else xs

  -- The effect of both overloads of `push`.
  unfoldable pub push : A → MessageQueue A → MessageQueue A
  push item q = record q { queue = make_room q.capacity q.queue ++ (item ∷ []) }

  -- The pushes of a producer, in order.
  abbrev pub push_all : List A → MessageQueue A → MessageQueue A
  push_all [] q = q
  push_all (x ∷ xs) q = push_all xs (push x q)

  -- `push` with its result, which is `true` always.
  unfoldable pub push_item : A → MessageQueue A → Bool × MessageQueue A
  push_item item q = (true, push item q)

  abbrev take_front : MessageQueue A → List A → Option A × MessageQueue A
  take_front q [] = (none, q)
  take_front q (x ∷ xs) = (some x, record q { queue = xs })

  -- `none` is `false`.
  unfoldable pub try_pop : MessageQueue A → Option A × MessageQueue A
  try_pop q = take_front q q.queue

  unfoldable pub size : MessageQueue A → ℕ
  size q = length q.queue

  abbrev is_nil : List A → Bool
  is_nil [] = true
  is_nil (x ∷ xs) = false

  unfoldable pub empty : MessageQueue A → Bool
  empty q = is_nil q.queue

  -- The predicate of the wait.
  abbrev wake : MessageQueue A → Bool
  wake q = not (is_nil q.queue) || not q.running

  -- `wait_pop` at a moment when its thread holds the mutex, with the deadline passed or not.
  unfoldable pub wait_pop : Bool → MessageQueue A → WaitResult A
  unfolding try_pop
  wait_pop timed_out q =
      if wake q
      then (let (item, rest) = try_pop q in returned item rest)
      else if timed_out
      then returned none q
      else blocked

  unfoldable pub stop : MessageQueue A → MessageQueue A
  stop q = record q { running = false }

  unfoldable pub is_running : MessageQueue A → Bool
  is_running q = q.running

  pub record IsValid (q : MessageQueue A) : Type 0 where
    pub positive : 0 < q.capacity
    pub bounded : length q.queue ≤ q.capacity

-- The calls of all threads on one queue, in the order in which they hold the mutex.
pub data Op {ℓ} (A : Type ℓ) : Type ℓ where
  pushes : A → Op A
  tries : Op A
  waits : Bool → Op A
  stops : Op A

module _ {ℓ} {A : Type ℓ} where
  abbrev pub handed : Option A → List A
  handed none = []
  handed (some x) = x ∷ []

  abbrev pub settle : MessageQueue A → WaitResult A → List A × MessageQueue A
  settle q blocked = ([], q)
  settle q (returned item rest) = (handed item, rest)

  -- The elements that a call hands to its consumer, and the queue after it.
  pub step : Op A → MessageQueue A → List A × MessageQueue A
  unfolding push wait_pop stop try_pop
  step (pushes x) q = ([], push x q)
  step tries q = let (item, rest) = try_pop q in (handed item, rest)
  step (waits timed_out) q = settle q (wait_pop timed_out q)
  step stops q = ([], stop q)

  pub run : List (Op A) → MessageQueue A → List A × MessageQueue A
  run [] q = ([], q)
  run (op ∷ ops) q =
      let (out, q') = step op q in let (rest, last) = run ops q' in (out ++ rest, last)

  abbrev pub pushed : List (Op A) → List A
  pushed [] = []
  pushed (pushes x ∷ ops) = x ∷ pushed ops
  pushed (tries ∷ ops) = pushed ops
  pushed (waits t ∷ ops) = pushed ops
  pushed (stops ∷ ops) = pushed ops
