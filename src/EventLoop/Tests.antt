-- ===== src/EventLoop/Tests.antt =====
-- A loop on which another thread has queued a task.
use high_concurrency_server.Common.{ℕ, ◌+◌, ◌<◌, ◌≡◌, refl, List, [], ◌∷◌, ◌++◌}
use high_concurrency_server.EventLoop.{EventLoop, Run, Step, init, queue_in_loop, polling}
use high_concurrency_server.EventLoop.Tasks.{Run-IsFifo}
use high_concurrency_server.EventLoop.Wakeup.{Run-no_lost_wakeup}

abbrev one_queued : EventLoop ℕ
one_queued = queue_in_loop (init 1) 7

queued-Run : Run (init 1) (7 ∷ []) one_queued
queued-Run = Run.next Run.here (Step.push 7)

-- Task 8 queues task 9.
abbrev follow : ℕ → List ℕ
follow x = (x + 1) ∷ []

abbrev two_queued : EventLoop ℕ
two_queued = record {
  thread_id = 1;
  phase = polling;
  eventfd = 2;
  writers = 0;
  task_queue = 7 ∷ 8 ∷ [];
  task = [];
  done = [];
}

Run-IsFifo_example : one_queued.done ++ (one_queued.task ++ one_queued.task_queue) ≡ 7 ∷ []
Run-IsFifo_example = Run-IsFifo 1 queued-Run

Run-no_lost_wakeup_example : 0 < one_queued.eventfd + one_queued.writers
Run-no_lost_wakeup_example =
    Run-no_lost_wakeup 1 queued-Run (unfold queue_in_loop init in refl)
      (unfold queue_in_loop init in λ e. cc)
