-- ===== src/Wheel/Schedule.antt =====
-- When a task runs, over many advances of the wheel.
use high_concurrency_server.Common.{
  get_elem?-append_length, get_elem?-set_self, lt_of_get_elem?, append-nil, ℕ, zero, suc, ◌+◌, ◌%◌,
  ◌≤◌, ◌<◌, ◌≡◌, ◌≢◌, ◌∙◌, refl, Bool, true, false, some, List, [], ◌∷◌, ◌++◌, length, get_elem?,
  arith, ==_refl, add64_lem, u64_mod,
}
use high_concurrency_server.Wheel.{
  TimeTask, TimeTaskWheel, count, use_count, slot, run_timer, set_time_task, set_pos,
  flush_time_task, find, remove_time_task,
}
use high_concurrency_server.Wheel.Counts.{
  count-append, count_one, use_count-set, count-le-use_count, count_two_slots, slot-set_self,
  slot-set_ne,
}
use high_concurrency_server.Wheel.Inv.{
  IsValid, set_time_task_lem, scheduled, scheduled-IsRing, use_count-scheduled, set_pos-lt, pushed,
  pushed-IsRing,
}
use high_concurrency_server.Wheel.Flush.{
  flush_time_task_lem, remove_time_task-IsValid, remove_time_task_lem,
}
use high_concurrency_server.Wheel.Fire.{
  IsRing, task_live, runs, run_timer-count, run_timer-wheels, run_timer-tick, run_timer-heap,
  run_timer-IsRing,
}

-- The wheel after `n` calls of `run_timer`, and the tasks that they ran.
unfoldable pub run_ticks : {C : Type 0} → ℕ → TimeTaskWheel C → TimeTaskWheel C × List ℕ
run_ticks zero w = (w, [])
run_ticks (suc n) w =
    let (w', fired) = run_timer w in let (w'', more) = run_ticks n w' in (w'', fired ++ more)

runs_dead : (c u : ℕ) → runs c u false ≡ 0
runs_dead c u = ground arith

runs_elsewhere : (live : Bool) (u c d : ℕ) → 0 < d → c + d ≤ u → runs c u live ≡ 0
runs_elsewhere true u c d h k = ground arith
runs_elsewhere false u c d h k = ground arith

module _ {C : Type 0} (w : TimeTaskWheel C) (ring : IsRing w) (x pos : ℕ)
    (ne : (w.tick + 1) % w.capacity ≢ pos) where
  -- A slot that does not become current keeps its pointers, and its tasks do not run.
  pub waits : 0 < count x (slot w.wheels pos) → count x (run_timer w).1 ≡ 0
  waits held =
      run_timer-count w ring x
      ∙ runs_elsewhere (task_live (get_elem? w.heap x)) (use_count x w.wheels)
          (count x (slot w.wheels ((w.tick + 1) % w.capacity))) (count x (slot w.wheels pos)) held
          (count_two_slots x w.wheels ((w.tick + 1) % w.capacity) pos ne)

  pub slot_kept : slot (run_timer w).0.wheels pos ≡ slot w.wheels pos
  slot_kept =
      rw (run_timer-wheels w ring) (slot-set_ne w.wheels ((w.tick + 1) % w.capacity) pos [] ne)

module _ {C : Type 0} (x pos : ℕ) where
  -- A task with a pointer in the slot that becomes current after `d` advances does not run before.
  pub not_before :
      (j d : ℕ) (w : TimeTaskWheel C)
      → IsRing w
      → j < d
      → d ≤ 60
      → pos ≡ (w.tick + d) % 60
      → 0 < count x (slot w.wheels pos)
      → count x (run_ticks j w).1 ≡ 0
  unfolding run_ticks count
  not_before zero d w ring h k e held = refl
  not_before (suc j) zero w ring h k e held = absurd (omega arith)
  not_before (suc j) (suc d) w ring h k e held = rw (
    count-append x (run_timer w).1 (run_ticks j (run_timer w).0).1,
    waits w ring x pos ne held,
    not_before j d (run_timer w).0 (run_timer-IsRing w ring) (omega arith) (omega arith)
        (rw (run_timer-tick w ring, ring.sixty) (omega arith))
        (rw (slot_kept w ring x pos ne) held),
  )
    where
      ne : (w.tick + 1) % w.capacity ≢ pos
      ne = rw ring.sixty (omega (arith, ring.tick_in))

  -- A live task whose only pointer stands in that slot runs at the `d`-th advance, once.
  pub runs_at :
      (d : ℕ) (w : TimeTaskWheel C)
      → IsRing w
      → d < 60
      → pos ≡ (w.tick + suc d) % 60
      → count x (slot w.wheels pos) ≡ 1
      → use_count x w.wheels ≡ 1
      → task_live (get_elem? w.heap x) ≡ true
      → (count x (run_ticks d w).1 ≡ 0) × (count x (run_ticks (suc d) w).1 ≡ 1)
  unfolding run_ticks count
  runs_at zero w ring k e held only live = (
    refl,
    rw (append-nil (run_timer w).1, run_timer-count w ring x, ring.sixty, ← e, held, only, live),
  )
  runs_at (suc d) w ring k e held only live =
      let quiet = waits w ring x pos ne (omega arith) in
      let ih =
        runs_at d (run_timer w).0 (run_timer-IsRing w ring) (omega arith)
          (rw (run_timer-tick w ring, ring.sixty) (omega arith))
          (rw (slot_kept w ring x pos ne) held) still (rw (run_timer-heap w ring) live) in
      (
        rw (count-append x (run_timer w).1 (run_ticks d (run_timer w).0).1, quiet, ih.0),
        rw (count-append x (run_timer w).1 (run_ticks (suc d) (run_timer w).0).1, quiet, ih.1),
      )
    where
      ne : (w.tick + 1) % w.capacity ≢ pos
      ne = rw ring.sixty (omega (arith, ring.tick_in))

      still : use_count x (run_timer w).0.wheels ≡ 1
      still = rw (run_timer-wheels w ring) (
          omega (
            arith,
            use_count-set x w.wheels ((w.tick + 1) % w.capacity) []
                (rw (ring.sixty, ring.slots) (omega arith)),
            count_two_slots x w.wheels ((w.tick + 1) % w.capacity) pos ne,
          ))

module _ {C : Type 0} where
  set_pos_lem :
      (w : TimeTaskWheel C) (time : ℕ)
      → IsRing w
      → time + 60 ≤ u64_mod
      → set_pos w time ≡ (w.tick + time) % 60
  unfolding set_pos
  set_pos_lem w time v h =
      rw (v.sixty, add64_lem time w.tick (omega (arith, v.tick_in))) (omega arith)

  -- A task that is set on a valid wheel with delay `time` runs once at the advance `(time - 1) mod 60 + 1` and not
  -- before: after exactly `time` advances if `time` lies between 1 and 60.
  pub set_time_task_runs_on_time :
      (w : TimeTaskWheel C) (id time : ℕ) (task : C)
      → IsValid w
      → time + 60 ≤ u64_mod
      → (w' : TimeTaskWheel C) × (set_time_task w id time task ≡ some w')
        × (count (length w.heap) (run_ticks ((time + 59) % 60) w').1 ≡ 0)
        × (count (length w.heap) (run_ticks (suc ((time + 59) % 60)) w').1 ≡ 1)
  set_time_task_runs_on_time w id time task v h =
      let (early, due) =
        runs_at x pos ((time + 59) % 60) w' ring (omega arith) place at_slot only fresh_live in
      (w', set_time_task_lem w id time task v.ring, early, due)
    where
      x : ℕ
      x = length w.heap

      pos : ℕ
      pos = set_pos w time

      w' : TimeTaskWheel C
      w' = scheduled w id time task

      ring : IsRing w'
      ring = scheduled-IsRing w id time task v.ring

      place : pos ≡ (w.tick + suc ((time + 59) % 60)) % 60
      place = set_pos_lem w time v.ring h ∙ omega arith

      at_slot : count x (slot w'.wheels pos) ≡ 1
      at_slot =
          rw (slot-set_self w.wheels pos (slot w.wheels pos ++ x ∷ []) (set_pos-lt w time v.ring)) (
            ground (
              arith,
              count-append x (slot w.wheels pos) (x ∷ []),
              count_one x x,
              count-le-use_count x w.wheels pos,
              v.fresh x,
            ))

      only : use_count x w'.wheels ≡ 1
      only = rw (use_count-scheduled w id time task x v.ring, v.fresh x (omega arith), ==_refl x)

      fresh_live : task_live (get_elem? w'.heap x) ≡ true
      fresh_live = rw (
          get_elem?-append_length w.heap
            (record { id = id; time = time; task = task; canceled = false }) [])

  -- On a valid wheel, a flushed task does not run in the `delay - 1` advances behind the flush, whatever slots it
  -- stood in before; the delay lies between 1 and 60.
  pub flush_time_task_postpones :
      (w : TimeTaskWheel C) (id r : ℕ) (t : TimeTask C) (j : ℕ)
      → IsValid w
      → find w.timers id ≡ some r
      → get_elem? w.heap r ≡ some t
      → t.time ≤ 60
      → j < t.time
      → (w' : TimeTaskWheel C) × (flush_time_task w id ≡ some w') × (count r (run_ticks j w').1 ≡ 0)
  flush_time_task_postpones w id r t j v e g h k = (
    pushed w pos r,
    flush_time_task_lem w id r t v e g (omega arith),
    not_before r pos j t.time (pushed w pos r) (pushed-IsRing w pos r v.ring) k h (omega arith) (
        rw (slot-set_self w.wheels pos (slot w.wheels pos ++ r ∷ []) (omega (arith, v.ring.slots)))
          (ground (arith, count-append r (slot w.wheels pos) (r ∷ []), count_one r r))),
  )
    where
      pos : ℕ
      pos = (t.time + w.tick) % 60

  -- What is cancelled does not run, ever after.
  never_runs :
      (n : ℕ) (w : TimeTaskWheel C) (x : ℕ)
      → IsRing w
      → task_live (get_elem? w.heap x) ≡ false
      → count x (run_ticks n w).1 ≡ 0
  unfolding run_ticks count
  never_runs zero w x ring dead = refl
  never_runs (suc n) w x ring dead = rw (
    count-append x (run_timer w).1 (run_ticks n (run_timer w).0).1,
    run_timer-count w ring x,
    dead,
    runs_dead (count x (slot w.wheels ((w.tick + 1) % w.capacity))) (use_count x w.wheels),
    never_runs n (run_timer w).0 x (run_timer-IsRing w ring) (rw (run_timer-heap w ring) dead),
  )

  -- After `remove_time_task` of an id, the task behind it does not run, however far the wheel
  -- advances.
  pub remove_time_task_cancels :
      (w : TimeTaskWheel C) (id r n : ℕ)
      → IsValid w
      → find w.timers id ≡ some r
      → count r (run_ticks n (remove_time_task w id)).1 ≡ 0
  remove_time_task_cancels w id r n v e =
      never_runs n (remove_time_task w id) r (remove_time_task-IsValid w id v).ring dead
    where
      dead : task_live (get_elem? (remove_time_task w id).heap r) ≡ false
      dead =
          let (t, g, i) = (v.entries id r e).1 in
          rw (
            remove_time_task_lem w id r t v e g,
            get_elem?-set_self w.heap r (record t { canceled = true }) (lt_of_get_elem? w.heap r g),
          )
