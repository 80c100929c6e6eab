-- ===== src/EventLoop/Tasks.antt =====
-- Every task that is queued is called once, in the order of the queue.
use high_concurrency_server.Common.{
  ℕ, ◌≡◌, refl, sym, ap, ◌∙◌, List, [], ◌∷◌, ◌++◌, append_assoc, append-nil, arith, ◌⊎◌, inl, inr,
}
use mathlib.Core.List.{flat_map}
use high_concurrency_server.EventLoop.{
  EventLoop, Phase, Step, Run, init, queue_in_loop, weak_up_fd, read_event_fd, swap_tasks,
  call_task, run_batch, run_alltask, polling, handling, running,
}
use high_concurrency_server.EventLoop

module _ {F : Type 0} where
  run_batch-done :
      (queued : F → List F) (es : List F) (l : EventLoop F)
      → (run_batch queued es l).done ≡ l.done ++ es
  unfolding run_batch
  run_batch-done queued [] l = sym (append-nil l.done)
  run_batch-done queued (e ∷ es) l = run_batch-done queued es _ ∙ append_assoc l.done (e ∷ []) es

  run_batch-queue :
      (queued : F → List F) (es : List F) (l : EventLoop F)
      → (run_batch queued es l).task_queue ≡ l.task_queue ++ flat_map queued es
  unfolding run_batch flat_map
  run_batch-queue queued [] l = sym (append-nil l.task_queue)
  run_batch-queue queued (e ∷ es) l =
      run_batch-queue queued es _ ∙ append_assoc l.task_queue (queued e) (flat_map queued es)

  -- `RunAlltask` calls the tasks that were queued before it, in their order, and no other: what
  -- they queue meanwhile is left in the queue for the next round.
  pub run_alltask_lem :
      (queued : F → List F) (l : EventLoop F)
      → ((run_alltask queued l).done ≡ l.done ++ l.task_queue)
        × ((run_alltask queued l).task_queue ≡ flat_map queued l.task_queue)
  unfolding run_alltask
  run_alltask_lem queued l = (
    run_batch-done queued l.task_queue (swap_tasks l),
    run_batch-queue queued l.task_queue (swap_tasks l),
  )

  -- What was called, is to be called and is queued, and that only `running` has tasks to call.
  pub record IsFifo (qs : List F) (l : EventLoop F) : Type 0 where
    pub order : l.done ++ (l.task ++ l.task_queue) ≡ qs
    pub idle : (l.phase ≡ running) ⊎ (l.task ≡ [])

  Step-IsFifo :
      {l m : EventLoop F} {q : List F} (qs : List F) → Step l q m → IsFifo qs l → IsFifo (qs ++ q) m
  unfolding queue_in_loop weak_up_fd read_event_fd swap_tasks call_task
  Step-IsFifo {l} qs (EventLoop.Step.push cb) f = record {
    order =
        ap (λ t. l.done ++ t) (sym (append_assoc l.task l.task_queue (cb ∷ [])))
        ∙ sym (append_assoc l.done (l.task ++ l.task_queue) (cb ∷ []))
        ∙ ap (λ t. t ++ cb ∷ []) f.order;
    idle = f.idle;
  }
  Step-IsFifo {l} qs (EventLoop.Step.wake others e) f = record {
    order = f.order ∙ sym (append-nil qs);
    idle = f.idle;
  }
  Step-IsFifo {l} qs (EventLoop.Step.return e) f = record {
    order = f.order ∙ sym (append-nil qs);
    idle = ground (arith, f.idle);
  }
  Step-IsFifo {l} qs (EventLoop.Step.drain e) f = record {
    order = f.order ∙ sym (append-nil qs);
    idle = f.idle;
  }
  Step-IsFifo {l} qs (EventLoop.Step.swap e) f =
      let none_left : l.task ≡ [] = ground (arith, f.idle) in
      let whole : l.done ++ l.task_queue ≡ qs = rw none_left at f.order in
      record {
        order = ap (λ t. l.done ++ t) (append-nil l.task_queue) ∙ whole ∙ sym (append-nil qs);
        idle = inl refl;
      }
  Step-IsFifo {l} qs (EventLoop.Step.call cb rest e) f =
      let whole : l.done ++ ((cb ∷ rest) ++ l.task_queue) ≡ qs = rw e at f.order in
      record {
        order = append_assoc l.done (cb ∷ []) (rest ++ l.task_queue) ∙ whole ∙ sym (append-nil qs);
        idle = ground (arith, f.idle);
      }
  Step-IsFifo {l} qs (EventLoop.Step.back e e') f = record {
    order = f.order ∙ sym (append-nil qs);
    idle = inr e';
  }

  -- In every run of a fresh loop and of any threads that queue tasks, the tasks that were called,
  -- the rest of the current batch and the queue make up, in this order, exactly the tasks that
  -- were queued: none is lost, called twice or overtaken.
  pub Run-IsFifo :
      (tid : ℕ) {qs : List F} {l : EventLoop F}
      → Run (init tid) qs l
      → l.done ++ (l.task ++ l.task_queue) ≡ qs
  Run-IsFifo tid r = (keep r).order
    where
      start : IsFifo [] (init tid)
      start = unfold init in record { order = refl; idle = inr refl }

      keep : {qs : List F} {l : EventLoop F} → Run (init tid) qs l → IsFifo qs l
      keep EventLoop.Run.here = start
      keep (EventLoop.Run.next {qs = qs} r st) = Step-IsFifo qs st (keep r)
