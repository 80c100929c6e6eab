-- ===== src/Wheel/Tests.antt =====
-- Wheels with concrete tasks.
use mathlib.Core.Path.{subst}
use high_concurrency_server.Common.{
  ℕ, suc, ◌+◌, ◌%◌, ◌≡◌, ◌∙◌, refl, sym, Option, some, none, List, [], ◌∷◌, length, get_elem?, set,
  replicate, arith, some-cancel, Bool, true, false,
}
use high_concurrency_server.Wheel.{
  TimeTask, TimeTaskWheel, init, count, slot, push_back, set_pos, assign, erase, find,
  set_time_task, flush_time_task, remove_time_task,
}
use high_concurrency_server.Wheel.Inv.{IsValid, init-IsValid, set_time_task-IsValid}
use high_concurrency_server.Wheel.Fire.{IsRing}
use high_concurrency_server.Wheel.Schedule.{
  run_ticks, set_time_task_runs_on_time, flush_time_task_postpones, remove_time_task_cancels,
}
use high_concurrency_server.Wheel.Calls.{Call, IsSafe, init-IsSafe, run, run-IsSafe}

-- A task of id 7 with delay 5, the first one of a fresh wheel.
abbrev task7 : TimeTask ℕ
task7 = record { id = 7; time = 5; task = 42; canceled = false }

abbrev one_task : TimeTaskWheel ℕ
one_task = record {
  wheels = set (replicate 60 []) 5 (0 ∷ []);
  tick = 0;
  capacity = 60;
  timers = (7, 0) ∷ [];
  heap = task7 ∷ [];
}

set_one_task : set_time_task init 7 5 42 ≡ some one_task
unfolding set_time_task init assign push_back set_pos slot erase
    high_concurrency_server.Common.Words.add64
set_one_task = refl

one_task-IsValid : IsValid one_task
one_task-IsValid =
    let (w', e, v) = set_time_task-IsValid init 7 5 42 init-IsValid in
    subst IsValid (sym (some-cancel (sym set_one_task ∙ e))) v

run-IsSafe_example :
    (w' : TimeTaskWheel ℕ) × (run init (
        Call.add 7 5 42
        ∷ Call.expire
        ∷ Call.flush 7
        ∷ Call.add 7 90 43
        ∷ Call.remove 7
        ∷ Call.expire
        ∷ [])
      ≡ some w')
    × IsSafe w'
run-IsSafe_example =
    run-IsSafe
      (Call.add 7 5 42
        ∷ Call.expire
        ∷ Call.flush 7
        ∷ Call.add 7 90 43
        ∷ Call.remove 7
        ∷ Call.expire
        ∷ [])
      init init-IsSafe (omega arith, (tt, (tt, (omega arith, (tt, (tt, tt))))))

set_time_task_runs_on_time_example :
    (w' : TimeTaskWheel ℕ) × (set_time_task one_task 8 30 43 ≡ some w')
    × (count 1 (run_ticks 29 w').1 ≡ 0)
    × (count 1 (run_ticks 30 w').1 ≡ 1)
set_time_task_runs_on_time_example =
    set_time_task_runs_on_time one_task 8 30 43 one_task-IsValid (omega arith)

flush_time_task_postpones_example :
    (w' : TimeTaskWheel ℕ) × (flush_time_task one_task 7 ≡ some w')
    × (count 0 (run_ticks 4 w').1 ≡ 0)
flush_time_task_postpones_example =
    flush_time_task_postpones one_task 7 0 task7 4 one_task-IsValid (unfold find in refl) refl
      (omega arith) (omega arith)

remove_time_task_cancels_example : count 0 (run_ticks 100 (remove_time_task one_task 7)).1 ≡ 0
remove_time_task_cancels_example =
    remove_time_task_cancels one_task 7 0 100 one_task-IsValid (unfold find in refl)

-- Its last second.
abbrev due : TimeTaskWheel ℕ
due = record one_task { tick = 4 }

due-IsRing : IsRing due
due-IsRing = record { sixty = refl; slots = refl; tick_in = omega arith }
