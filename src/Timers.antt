-- ===== src/Timers.antt =====
-- The timer wheel on its event loop, in Sever_final/Sever.hpp: `set_time_task_loop` and its like,
-- which `TimerAdd` and its like forward to, put a call of the wheel through `RunInLoop`, and
-- `OneTime` is the handler of the timerfd. The timerfd itself is not modelled: a tick may come
-- whenever the handlers run.
pub mod Safe
mod Tests
use high_concurrency_server.Common.{ℕ, ◌≡◌, Bool, Option, some, List, [], ◌∷◌, ◌++◌, ◌>>=◌}
use high_concurrency_server.Wheel.{TimeTaskWheel, run_timer, has_timer}
use high_concurrency_server.Wheel
use high_concurrency_server.Wheel.Calls.{Call}
use high_concurrency_server.Wheel.Calls
use high_concurrency_server.EventLoop.{EventLoop, Step, run_in_loop, call_task, handling}
use high_concurrency_server.EventLoop

-- The tasks of the loop are calls of the wheel.
pub record Timers (C : Type 0) : Type 0 where
  pub loop : EventLoop (Call C)
  pub wheel : TimeTaskWheel C

module _ {C : Type 0} where
  unfoldable pub init : ℕ → Timers C
  unfolding EventLoop.init Wheel.init
  init tid = record { loop = EventLoop.init tid; wheel = Wheel.init }

  -- `_loop->RunInLoop(std::bind(…))` on thread `tid`.
  unfoldable pub request : Timers C → ℕ → Call C → Option (Timers C)
  request t tid call = do
    let (l, now) = run_in_loop t.loop tid call
    w ← Calls.run t.wheel now
    some (record { loop = l; wheel = w })

  unfoldable pub set_time_task_loop : Timers C → ℕ → ℕ → ℕ → C → Option (Timers C)
  unfolding request
  set_time_task_loop t tid id time task = request t tid (Call.add id time task)

  unfoldable pub flush_time_task_loop : Timers C → ℕ → ℕ → Option (Timers C)
  unfolding request
  flush_time_task_loop t tid id = request t tid (Call.flush id)

  unfoldable pub remove_time_task_loop : Timers C → ℕ → ℕ → Option (Timers C)
  unfolding request
  remove_time_task_loop t tid id = request t tid (Call.remove id)

  -- `OneTime`
  unfoldable pub one_time : Timers C → Timers C
  one_time t = record t { wheel = (run_timer t.wheel).0 }

  unfoldable pub hastimer : Timers C → ℕ → Bool
  hastimer t id = has_timer t.wheel id

-- The steps of the loop's thread and of the threads that set timers, with the calls they ask for.
pub data TimersStep {C : Type 0} (t : Timers C) : List (Call C) → Timers C → Type 0 where
  -- a thread asks for a call of the wheel
  ask :
      (tid : ℕ) (call : Call C) {u : Timers C}
      → request t tid call ≡ some u
      → TimersStep t (call ∷ []) u
  -- a step of the loop that calls no task
  quiet :
      {l : EventLoop (Call C)}
      → Step t.loop [] l
      → l.done ≡ t.loop.done
      → TimersStep t [] (record t { loop = l })
  -- the loop calls its next task
  perform :
      (call : Call C) (rest : List (Call C)) {w : TimeTaskWheel C}
      → t.loop.task ≡ call ∷ rest
      → Calls.step t.wheel call ≡ some w
      → TimersStep t [] (record { loop = call_task t.loop call rest; wheel = w })
  -- the handler of the timerfd
  tick : t.loop.phase ≡ handling → TimersStep t [] (one_time t)

pub data TimersRun {C : Type 0} (t : Timers C) : List (Call C) → Timers C → Type 0 where
  here : TimersRun t [] t
  next :
      {qs q : List (Call C)} {u v : Timers C}
      → TimersRun t qs u
      → TimersStep u q v
      → TimersRun t (qs ++ q) v
