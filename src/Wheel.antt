-- ===== src/Wheel.antt =====
-- time_task and time_task_wheel of Sever_final/Sever.hpp: delayed callbacks in a ring of 60 slots,
-- advanced once a second. A `time_task` is a cell of `heap` and a `shared_ptr` to it is its index;
-- the reference count is the number of times that the index stands in the slots. The map `_timers`
-- of `weak_ptr` is an association list. What `run_timer` returns beside the wheel is the tasks
-- whose callback it calls, in order; a callback that calls the wheel again is not modelled.
-- `none` is a null or invalid pointer, an index outside a vector, or a signed overflow.
-- The timerfd that drives the wheel is not modelled.
pub mod Counts
pub mod Inv
pub mod Flush
pub mod Clear
pub mod Fire
pub mod Schedule
pub mod Calls
mod Tests
use high_concurrency_server.Common.{
  ℕ, zero, suc, ◌+◌, ◌-◌, ◌*◌, ◌%◌, ◌^◌, Bool, true, false, not, Option, none, some, List, [], ◌∷◌,
  ◌++◌, length, get_elem?, set, replicate, ltb, leb, ◌==◌, if◌then◌else◌, ◌>>=◌, add64,
}

-- `_task` is a callback; the wheel only calls it, so it is any value.
pub record TimeTask (C : Type 0) : Type 0 where
  pub id : ℕ
  pub time : ℕ
  pub task : C
  pub canceled : Bool

pub record TimeTaskWheel (C : Type 0) : Type 0 where
  pub wheels : List (List ℕ)
  pub tick : ℕ
  pub capacity : ℕ
  pub timers : List (ℕ × ℕ)
  pub heap : List (TimeTask C)

-- `_timers.find`, `_timers[id] = …` and `_timers.erase`.
unfoldable pub find : List (ℕ × ℕ) → ℕ → Option ℕ
find [] id = none
find ((k, r) ∷ m) id = if k == id then some r else find m id

unfoldable pub erase : List (ℕ × ℕ) → ℕ → List (ℕ × ℕ)
erase [] id = []
erase ((k, r) ∷ m) id = let rest = erase m id in if k == id then rest else (k, r) ∷ rest

unfoldable pub assign : List (ℕ × ℕ) → ℕ → ℕ → List (ℕ × ℕ)
unfolding erase
assign m id r = (id, r) ∷ erase m id

-- How often a reference stands in a slot, and in all of them.
unfoldable pub count : ℕ → List ℕ → ℕ
count x [] = 0
count x (y ∷ ys) = (if y == x then 1 else 0) + count x ys

unfoldable pub use_count : ℕ → List (List ℕ) → ℕ
unfolding count
use_count x [] = 0
use_count x (s ∷ ss) = count x s + use_count x ss

-- A slot; `[]` outside the ring.
unfoldable pub slot : List (List ℕ) → ℕ → List ℕ
slot [] i = []
slot (s ∷ ss) zero = s
slot (s ∷ ss) (suc i) = slot ss i

module _ {C : Type 0} where
  unfoldable pub init : TimeTaskWheel C
  init = record { wheels = replicate 60 []; tick = 0; capacity = 60; timers = []; heap = [] }

  -- `_wheels[pos].push_back(ptr)`
  unfoldable pub push_back : TimeTaskWheel C → ℕ → ℕ → Option (TimeTaskWheel C)
  unfolding slot
  push_back w pos x =
      if ltb pos (length w.wheels)
      then some (record w { wheels = set w.wheels pos (slot w.wheels pos ++ x ∷ []) })
      else none

  -- The slot of a task: `(time + _tick) % _capacity` in `uint64_t`.
  unfoldable pub set_pos : TimeTaskWheel C → ℕ → ℕ
  set_pos w time = add64 time w.tick % w.capacity

  unfoldable pub set_time_task : TimeTaskWheel C → ℕ → ℕ → C → Option (TimeTaskWheel C)
  unfolding push_back set_pos assign
  set_time_task w id time task =
      let x = length w.heap in
      let w' = record w {
        heap = w.heap ++ record { id = id; time = time; task = task; canceled = false } ∷ [];
        timers = assign w.timers id x;
      } in
      push_back w' (set_pos w' time) x

  -- `it->second.lock()`: the task, if a `shared_ptr` to it is left.
  unfoldable pub lock : TimeTaskWheel C → ℕ → Option (TimeTask C)
  unfolding use_count
  lock w x = if use_count x w.wheels == 0 then none else get_elem? w.heap x

  -- `int time = ptr->delay_time(); uint64_t pos = (time + _tick) % _capacity;`. The delay is cut to
  -- an `int`, and a negative `pos` becomes an index past the ring.
  unfoldable pub flush_pos : TimeTaskWheel C → ℕ → Option ℕ
  flush_pos w delay =
      let t = delay % 2 ^ 32 in
      if ltb t (2 ^ 31)
      then (if ltb (t + w.tick) (2 ^ 31) then some ((t + w.tick) % w.capacity) else none)
      else if leb (2 ^ 32 - t) w.tick
      then some ((w.tick - (2 ^ 32 - t)) % w.capacity)
      else if (2 ^ 32 - t - w.tick) % w.capacity == 0
      then some 0
      else none

  -- The rest of `flush_time_task` for an entry of the map.
  unfoldable pub flush_entry : TimeTaskWheel C → Option ℕ → Option (TimeTaskWheel C)
  unfolding lock flush_pos push_back
  flush_entry w none = some w
  flush_entry w (some x) = do task ← lock w x; pos ← flush_pos w task.time; push_back w pos x

  unfoldable pub flush_time_task : TimeTaskWheel C → ℕ → Option (TimeTaskWheel C)
  unfolding find flush_entry
  flush_time_task w id = flush_entry w (find w.timers id)

  -- `Excutetimer`, which a task calls as its `_release`.
  unfoldable pub excute_timer : TimeTaskWheel C → ℕ → TimeTaskWheel C
  unfolding erase
  excute_timer w id = record w { timers = erase w.timers id }

  -- `~time_task`: the callback unless the task is cancelled, then `_release`.
  unfoldable pub destroy_task : TimeTaskWheel C → ℕ → Option (TimeTask C) → TimeTaskWheel C × List ℕ
  unfolding excute_timer
  destroy_task w x none = (w, [])
  destroy_task w x (some t) = (excute_timer w t.id, if t.canceled then [] else x ∷ [])

  -- One `shared_ptr` fewer: the last one destroys the task.
  unfoldable pub release_ref : TimeTaskWheel C → ℕ → TimeTaskWheel C × List ℕ
  unfolding use_count destroy_task
  release_ref w x =
      if use_count x w.wheels == 0 then destroy_task w x (get_elem? w.heap x) else (w, [])

  -- `_wheels[_tick].clear()`: the pointers of the slot go one by one, from the front.
  unfoldable pub clear_slot : TimeTaskWheel C → List ℕ → TimeTaskWheel C × List ℕ
  unfolding release_ref
  clear_slot w [] = (w, [])
  clear_slot w (x ∷ rest) =
      let (w', fired) = release_ref (record w { wheels = set w.wheels w.tick rest }) x in
      let (w'', more) = clear_slot w' rest in (w'', fired ++ more)

  unfoldable pub advance : TimeTaskWheel C → TimeTaskWheel C
  advance w = record w { tick = (w.tick + 1) % w.capacity }

  unfoldable pub run_timer : TimeTaskWheel C → TimeTaskWheel C × List ℕ
  unfolding clear_slot slot advance
  run_timer w = let w' = advance w in clear_slot w' (slot w'.wheels w'.tick)

  -- `ptr->Cancel()`
  unfoldable pub cancel : TimeTaskWheel C → ℕ → Option (TimeTask C) → TimeTaskWheel C
  cancel w x none = w
  cancel w x (some t) = record w { heap = set w.heap x (record t { canceled = true }) }

  unfoldable pub remove_entry : TimeTaskWheel C → Option ℕ → TimeTaskWheel C
  unfolding cancel lock
  remove_entry w none = w
  remove_entry w (some x) = cancel w x (lock w x)

  unfoldable pub remove_time_task : TimeTaskWheel C → ℕ → TimeTaskWheel C
  unfolding find remove_entry
  remove_time_task w id = remove_entry w (find w.timers id)

  unfoldable pub has_timer : TimeTaskWheel C → ℕ → Bool
  unfolding find
  has_timer w id = elim (find w.timers id) [ none ↦ false | some x ↦ true ]
