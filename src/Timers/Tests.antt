-- ===== src/Timers/Tests.antt =====
-- A thread sets a timer on a loop that another thread runs.
use high_concurrency_server.Common.{ℕ}
use high_concurrency_server.Wheel.Calls.{Call}
use high_concurrency_server.Wheel.Calls
use high_concurrency_server.EventLoop.{EventLoop, queue_in_loop, swap_tasks}
use high_concurrency_server.EventLoop
use high_concurrency_server.Timers.{Timers, init}

abbrev asked : Timers ℕ
asked = record { loop = queue_in_loop (EventLoop.init 1) (Call.add 7 5 42); wheel = (init 1).wheel }

-- The loop has woken up, and is about to set the timer.
abbrev taken : Timers ℕ
taken = record {
  loop = swap_tasks (record asked.loop { phase = EventLoop.handling });
  wheel = asked.wheel;
}
