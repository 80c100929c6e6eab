-- ===== src/LoopPool.antt =====
-- LoopThread and LoopThreadPool of Sever_final/Sever.hpp. An `EventLoop *` is a number.
pub mod Rounds
pub mod Start
mod Tests
use high_concurrency_server.Common.{
  ◌≡◌, ℕ, zero, suc, ◌+◌, ◌%◌, Bool, true, false, Option, some, none, List, [], ◌∷◌, ◌++◌,
  get_elem?, length, ◌==◌, ltb, if◌then◌else◌, ◌>>=◌,
}

pub record LoopThreadPool : Type 0 where
  pub thread_cnt : ℕ
  pub next_event_loop : ℕ
  pub base_loop : ℕ
  pub slave_event_loops : List ℕ

unfoldable pub init : ℕ → LoopThreadPool
init base_loop = record {
  thread_cnt = 0;
  next_event_loop = 0;
  base_loop = base_loop;
  slave_event_loops = [];
}

-- `none` is an index outside `_Slave_Event_Loops`.
unfoldable pub get_next_event_loop : LoopThreadPool → Option (ℕ × LoopThreadPool)
get_next_event_loop p = if p.thread_cnt == 0 then some (p.base_loop, p) else (do
  let n = (p.next_event_loop + 1) % p.thread_cnt
  loop ← get_elem? p.slave_event_loops n
  some (loop, record p { next_event_loop = n }))

unfoldable pub set_thread_cnt : LoopThreadPool → ℕ → LoopThreadPool
set_thread_cnt p n = record p { thread_cnt = n }

-- The loops that `Get_EventLoop` of the new threads returns, the first `n` that `started` gives.
unfoldable pub collect : ℕ → (ℕ → ℕ) → ℕ → List ℕ
collect zero started i = []
collect (suc n) started i = started i ∷ collect n started (i + 1)

unfoldable pub create : LoopThreadPool → (ℕ → ℕ) → LoopThreadPool
unfolding collect
create p started =
    if ltb 0 p.thread_cnt
    then record p { slave_event_loops = collect p.thread_cnt started 0 }
    else p

-- A LoopThread: its thread starts before the members behind `_thread` are initialised.
pub record LoopThread : Type 0 where
  pub loop : Option ℕ
  -- the constructor has set `_loop(nullptr)`
  pub constructed : Bool
  -- `Thread_Entry` has set `_loop = &a`
  pub entered : Bool

unfoldable pub started : LoopThread
started = record { loop = none; constructed = false; entered = false }

-- The steps of the constructor and of the thread.
pub data LoopThreadStep (t : LoopThread) : LoopThread → Type 0 where
  construct :
      t.constructed ≡ false → LoopThreadStep t (record t { loop = none; constructed = true })
  enter :
      (a : ℕ) → t.entered ≡ false → LoopThreadStep t (record t { loop = some a; entered = true })

pub data LoopThreadRun (t : LoopThread) : LoopThread → Type 0 where
  here : LoopThreadRun t t
  next : {u v : LoopThread} → LoopThreadRun t u → LoopThreadStep u v → LoopThreadRun t v

-- `Get_EventLoop`, called behind the constructor: `none` while it waits.
unfoldable pub get_event_loop : LoopThread → Option ℕ
get_event_loop t = t.loop
