-- ===== src/LoopPool/Tests.antt =====
-- A pool of three loops, and a LoopThread.
use high_concurrency_server.Common.{
  ℕ, ◌+◌, ◌%◌, ◌<◌, ◌≡◌, refl, some, none, List, [], ◌∷◌, length, get_elem?, arith, true, inr,
}
use high_concurrency_server.LoopPool.{
  LoopThreadPool, get_next_event_loop, LoopThread, LoopThreadRun, started, get_event_loop,
}
use high_concurrency_server.LoopPool.Rounds.{
  IsStarted, Deals, IsPoolLoop, get_loops, get_loops_round_robin, get_next_event_loop-IsPoolLoop,
}
use high_concurrency_server.LoopPool.Start.{get_event_loop_may_hang}

abbrev three : LoopThreadPool
three = record {
  thread_cnt = 3;
  next_event_loop = 1;
  base_loop = 9;
  slave_event_loops = 4 ∷ 5 ∷ 6 ∷ [];
}

three-IsStarted : IsStarted three
three-IsStarted = record { some_threads = omega arith; all_loops = refl }

get_loops_round_robin_example :
    (loops : List ℕ) × (p' : LoopThreadPool) × (get_loops 5 three ≡ some (loops, p'))
    × (length loops ≡ 5)
    × ((i : ℕ) → i < 5 → get_elem? loops i ≡ get_elem? (4 ∷ 5 ∷ 6 ∷ []) ((1 + 1 + i) % 3))
get_loops_round_robin_example = get_loops_round_robin 5 three three-IsStarted

abbrev ready : LoopThread
ready = record started { constructed = true }

get_event_loop_may_hang_example :
    (t : LoopThread) × LoopThreadRun started t
    × ((u : LoopThread) → LoopThreadRun t u → get_event_loop u ≡ none)
get_event_loop_may_hang_example = get_event_loop_may_hang 7

get_next_event_loop-IsPoolLoop_example :
    (loop : ℕ) × (next : ℕ) × (get_next_event_loop three
      ≡ some (loop, record three { next_event_loop = next }))
    × IsPoolLoop three loop
    × Deals (record three { next_event_loop = next })
get_next_event_loop-IsPoolLoop_example = get_next_event_loop-IsPoolLoop three (inr three-IsStarted)
