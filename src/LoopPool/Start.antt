-- ===== src/LoopPool/Start.antt =====
-- The start of a LoopThread: the thread and the constructor both write `_loop`.
use high_concurrency_server.Common.{ℕ, ◌≡◌, refl, true, some, none, arith}
use high_concurrency_server.LoopPool.{
  LoopThread, LoopThreadStep, LoopThreadRun, started, get_event_loop,
}

-- Both have written, and the loop is what it is.
record IsFinal (t u : LoopThread) : Type 0 where
  written : (u.constructed ≡ true) × (u.entered ≡ true)
  kept : u.loop ≡ t.loop

IsFinal-stays :
    {t u : LoopThread} → t.constructed ≡ true → t.entered ≡ true → LoopThreadRun t u → IsFinal t u
IsFinal-stays c e LoopThreadRun.here = record { written = (c, e); kept = refl }
IsFinal-stays c e (LoopThreadRun.next r (LoopThreadStep.construct h)) =
    absurd (ground (arith, (IsFinal-stays c e r).written.0))
IsFinal-stays c e (LoopThreadRun.next r (LoopThreadStep.enter a h)) =
    absurd (ground (arith, (IsFinal-stays c e r).written.1))

-- When the thread enters with its loop `a` behind the constructor, `Get_EventLoop` returns `a` from
-- then on.
pub get_event_loop_returns :
    (t : LoopThread) (a : ℕ) (u : LoopThread)
    → t.constructed ≡ true
    → LoopThreadRun (record t { loop = some a; entered = true }) u
    → get_event_loop u ≡ some a
unfolding get_event_loop
get_event_loop_returns t a u c r = (IsFinal-stays c refl r).kept

-- `_thread` is declared before `_loop`, so the thread can enter before `_loop(nullptr)` runs. Then
-- the pointer is lost: whatever loop the thread has, there is such a run from the start behind
-- which `Get_EventLoop` waits for ever.
pub get_event_loop_may_hang :
    (a : ℕ)
    → (t : LoopThread) × LoopThreadRun started t
      × ((u : LoopThread) → LoopThreadRun t u → get_event_loop u ≡ none)
unfolding get_event_loop started
get_event_loop_may_hang a = (
  record { loop = none; constructed = true; entered = true },
  LoopThreadRun.next (LoopThreadRun.next LoopThreadRun.here (LoopThreadStep.enter a refl))
      (LoopThreadStep.construct refl),
  λ u r. (IsFinal-stays refl refl r).kept,
)
