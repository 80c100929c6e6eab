-- ===== src/EventLoop.antt =====
-- EventLoop of Sever_final/Sever.hpp: the task queue that other threads fill and the loop's thread
-- empties. A task is any value; `done` is what was called, in order. The mutex makes `push_back`
-- and `swap` single steps; the write to the eventfd behind `push_back` is a step of its own.
pub mod Tasks
pub mod Wakeup
mod Tests
use high_concurrency_server.Common.{
  ℕ, zero, suc, ◌+◌, ◌<◌, ◌≡◌, Bool, true, false, Option, some, none, List, [], ◌∷◌, ◌++◌, ◌==◌,
  if◌then◌else◌,
}

-- Where the loop's thread stands in `Start`.
pub data Phase : Type 0 where
  -- in `epoll_wait`
  polling : Phase
  -- behind it, in the handlers of the channels
  handling : Phase
  -- in `RunAlltask`, behind the swap
  running : Phase

pub record EventLoop (F : Type 0) : Type 0 where
  pub thread_id : ℕ
  pub phase : Phase
  -- the counter of the eventfd
  pub eventfd : ℕ
  -- the threads between `push_back` and `Weak_Up_fd`
  pub writers : ℕ
  pub task_queue : List F
  -- the swapped tasks that are still to be called
  pub task : List F
  pub done : List F

module _ {F : Type 0} where
  unfoldable pub init : ℕ → EventLoop F
  init tid = record {
    thread_id = tid;
    phase = polling;
    eventfd = 0;
    writers = 0;
    task_queue = [];
    task = [];
    done = [];
  }

  -- `ThreadInLoop`
  unfoldable pub thread_in_loop : EventLoop F → ℕ → Bool
  thread_in_loop l tid = l.thread_id == tid

  -- `QueueInLoop` up to the end of its critical section.
  unfoldable pub queue_in_loop : EventLoop F → F → EventLoop F
  queue_in_loop l cb = record l { task_queue = l.task_queue ++ cb ∷ []; writers = l.writers + 1 }

  -- `Weak_Up_fd`
  unfoldable pub weak_up_fd : EventLoop F → ℕ → EventLoop F
  weak_up_fd l others = record l { eventfd = l.eventfd + 1; writers = others }

  -- `Read_Event_fd` resets the counter.
  unfoldable pub read_event_fd : EventLoop F → EventLoop F
  read_event_fd l = record l { eventfd = 0 }

  -- `_task.swap(_task_queue)`
  unfoldable pub swap_tasks : EventLoop F → EventLoop F
  swap_tasks l = record l { phase = running; task = l.task_queue; task_queue = [] }

  -- `e()`, and the rest of the loop over the tasks.
  unfoldable pub call_task : EventLoop F → F → List F → EventLoop F
  call_task l cb rest = record l { task = rest; done = l.done ++ cb ∷ [] }

  -- `RunInLoop`: at once on the loop's thread, through the queue from another one. Beside the loop
  -- stands what was called at once.
  unfoldable pub run_in_loop : EventLoop F → ℕ → F → EventLoop F × List F
  unfolding thread_in_loop queue_in_loop
  run_in_loop l tid cb = if thread_in_loop l tid then (l, cb ∷ []) else (queue_in_loop l cb, [])

  -- The tasks of a batch one after the other; `queued e` is what `e` puts in the queue.
  unfoldable pub run_batch : (F → List F) → List F → EventLoop F → EventLoop F
  unfolding call_task
  run_batch queued [] l = l
  run_batch queued (e ∷ es) l =
      let l' = call_task l e es in
      run_batch queued es (record l' { task_queue = l'.task_queue ++ queued e })

  -- `RunAlltask` with no other thread in between.
  unfoldable pub run_alltask : (F → List F) → EventLoop F → EventLoop F
  unfolding swap_tasks run_batch
  run_alltask queued l = run_batch queued l.task_queue (swap_tasks l)

-- The steps of the loop's thread and of the others.
pub data Step {F : Type 0} (l : EventLoop F) : List F → EventLoop F → Type 0 where
  -- any thread queues a task
  push : (cb : F) → Step l (cb ∷ []) (queue_in_loop l cb)
  -- and then writes to the eventfd
  wake : (others : ℕ) → l.writers ≡ suc others → Step l [] (weak_up_fd l others)
  -- `epoll_wait` returns: the eventfd is readable, or another descriptor is ready
  return : l.phase ≡ polling → Step l [] (record l { phase = handling })
  -- the handler of the eventfd
  drain : l.phase ≡ handling → Step l [] (read_event_fd l)
  -- `RunAlltask`
  swap : l.phase ≡ handling → Step l [] (swap_tasks l)
  call : (cb : F) (rest : List F) → l.task ≡ cb ∷ rest → Step l [] (call_task l cb rest)
  -- back to `Poll`
  back : l.phase ≡ running → l.task ≡ [] → Step l [] (record l { phase = polling })

-- A run with the tasks that were queued in it, in order.
pub data Run {F : Type 0} (l : EventLoop F) : List F → EventLoop F → Type 0 where
  here : Run l [] l
  next : {qs q : List F} {m n : EventLoop F} → Run l qs m → Step m q n → Run l (qs ++ q) n
