-- ===== src/EventLoop/Wakeup.antt =====
-- No task waits in the queue while the loop sleeps.
use high_concurrency_server.Common.{ℕ, ◌+◌, ◌<◌, ◌≡◌, ◌≢◌, refl, List, [], arith, ◌⊎◌, inl, inr}
use high_concurrency_server.EventLoop.{
  EventLoop, Phase, Run, Step, init, queue_in_loop, weak_up_fd, read_event_fd, swap_tasks,
  call_task, polling, handling, running,
}
use high_concurrency_server.EventLoop

module _ {F : Type 0} where
  -- Outside the handlers a task in the queue is announced: the eventfd is readable, or a thread is
  -- about to write to it.
  abbrev pub IsAnnounced : EventLoop F → Type 0
  IsAnnounced l = (l.phase ≡ handling) ⊎ ((l.task_queue ≡ []) ⊎ (0 < l.eventfd + l.writers))

  Step-IsAnnounced : {l m : EventLoop F} {q : List F} → Step l q m → IsAnnounced l → IsAnnounced m
  unfolding queue_in_loop weak_up_fd read_event_fd swap_tasks call_task
  Step-IsAnnounced (EventLoop.Step.push cb) a = inr (inr (omega arith))
  Step-IsAnnounced (EventLoop.Step.wake others e) (inl h) = inl h
  Step-IsAnnounced (EventLoop.Step.wake others e) (inr h) = inr (inr (omega arith))
  Step-IsAnnounced (EventLoop.Step.return e) a = inl refl
  Step-IsAnnounced (EventLoop.Step.drain e) a = inl e
  Step-IsAnnounced (EventLoop.Step.swap e) a = inr (inl refl)
  Step-IsAnnounced (EventLoop.Step.call cb rest e) a = a
  Step-IsAnnounced (EventLoop.Step.back e e') (inl h) = absurd (ground arith)
  Step-IsAnnounced (EventLoop.Step.back e e') (inr h) = inr h

  -- Whenever the loop waits in `epoll_wait` while a task is in the queue, the eventfd is readable
  -- or some thread has still to write to it: no wake-up is lost.
  pub Run-no_lost_wakeup :
      (tid : ℕ) {qs : List F} {l : EventLoop F}
      → Run (init tid) qs l
      → l.phase ≡ polling
      → l.task_queue ≢ []
      → 0 < l.eventfd + l.writers
  Run-no_lost_wakeup tid {l = l} r asleep waiting = read (keep r)
    where
      keep : {qs : List F} {m : EventLoop F} → Run (init tid) qs m → IsAnnounced m
      keep EventLoop.Run.here = unfold init in inr (inl refl)
      keep (EventLoop.Run.next r st) = Step-IsAnnounced st (keep r)

      read : IsAnnounced l → 0 < l.eventfd + l.writers
      read (inl h) = absurd (ground arith)
      read (inr (inl h)) = absurd (waiting h)
      read (inr (inr h)) = h
