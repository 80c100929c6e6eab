-- ===== src/Timers/Safe.antt =====
-- Whatever the threads do, the wheel stays safe and no call of it fails.
use high_concurrency_server.Common.{ℕ, ◌≡◌, some, [], ◌∷◌, All, All-append, inl, inr, Bool-cases}
use high_concurrency_server.Wheel.Calls.{Call, IsShort, AllShort, IsSafe, run-IsSafe}
use high_concurrency_server.Wheel.Calls
use high_concurrency_server.EventLoop.{EventLoop, run_in_loop, thread_in_loop, queue_in_loop}
use high_concurrency_server.EventLoop
use high_concurrency_server.Timers.{Timers, request}

module _ {C : Type 0} where
  -- The wheel is safe, and the calls that wait have delays that fit an `int` with any tick added.
  pub record IsSound (t : Timers C) : Type 0 where
    pub safe : IsSafe t.wheel
    pub batch : All IsShort t.loop.task
    pub queue : All IsShort t.loop.task_queue

  -- Asking for a call succeeds, at once or through the queue.
  pub request-IsSound :
      (t : Timers C) (tid : ℕ) (call : Call C)
      → IsSound t
      → IsShort call
      → (u : Timers C) × (request t tid call ≡ some u) × IsSound u
  unfolding request run_in_loop queue_in_loop Calls.run
  request-IsSound t tid call s h = elim (Bool-cases (thread_in_loop t.loop tid)) [
    | inl own ↦
        let (w, e, safe) = run-IsSafe (call ∷ []) t.wheel s.safe (h, tt) in
        (
          record { loop = t.loop; wheel = w },
          rw (own, e),
          record { safe = safe; batch = s.batch; queue = s.queue },
        )
    | inr other ↦ (
      record { loop = queue_in_loop t.loop call; wheel = t.wheel },
      rw other,
      record {
        safe = s.safe;
        batch = s.batch;
        queue = All-append IsShort t.loop.task_queue (call ∷ []) s.queue (h, tt);
      },
    )
  ]
