-- ===== src/Wheel/Fire.antt =====
-- Which tasks one advance of the wheel runs.
use native.Mathlib.Decide.{ℕ_discrete}
use mathlib.Core.Path.{ap₂}
use high_concurrency_server.Common.{
  ==_refl, ℕ, ◌+◌, ◌%◌, ◌≤◌, ◌<◌, ◌≡◌, ◌≢◌, ◌∙◌, sym, refl, ap, Bool, true, false, not, ◌&&◌,
  Option, some, none, List, [], ◌∷◌, length, length-set, get_elem?, set, arith, ltb, ◌==◌,
  if◌then◌else◌,
}
use high_concurrency_server.Wheel.{
  TimeTask, TimeTaskWheel, count, use_count, slot, release_ref, destroy_task, clear_slot, run_timer,
  advance,
}
use high_concurrency_server.Wheel.Counts.{
  count-append, use_count-set, count-le-use_count, set-set, slot-set_self, set-slot,
}

-- Whether the callback of a task is to be called when the task dies.
abbrev pub task_live : {C : Type 0} → Option (TimeTask C) → Bool
task_live none = false
task_live (some t) = not t.canceled

-- What a task's callback count comes to: it runs once if all its `u` pointers are among the `c` of
-- the slot and it is live.
abbrev pub runs : ℕ → ℕ → Bool → ℕ
runs c u live = if ltb 0 c && ((u == c) && live) then 1 else 0

runs_self :
    (live : Bool) (u u' c : ℕ)
    → u' + (1 + c) ≡ u + c
    → c ≤ u'
    → (if (u' == 0) && live then 1 else 0) + runs c u' live ≡ runs (1 + c) u live
runs_self true u u' c h k = ground arith
runs_self false u u' c h k = ground arith

module _ {C : Type 0} where
  pub release_ref-wheels : (w : TimeTaskWheel C) (x : ℕ) → (release_ref w x).0.wheels ≡ w.wheels
  unfolding release_ref
  release_ref-wheels w x = ground arith

  pub release_ref-tick : (w : TimeTaskWheel C) (x : ℕ) → (release_ref w x).0.tick ≡ w.tick
  unfolding release_ref
  release_ref-tick w x = ground arith

  pub release_ref-heap : (w : TimeTaskWheel C) (x : ℕ) → (release_ref w x).0.heap ≡ w.heap
  unfolding release_ref
  release_ref-heap w x = ground arith

  release_ref-capacity : (w : TimeTaskWheel C) (x : ℕ) → (release_ref w x).0.capacity ≡ w.capacity
  unfolding release_ref
  release_ref-capacity w x = ground arith

  abbrev dies : TimeTaskWheel C → ℕ → Bool
  dies w x = (use_count x w.wheels == 0) && task_live (get_elem? w.heap x)

  fired_of_task :
      (w : TimeTaskWheel C) (x : ℕ) (o : Option (TimeTask C))
      → (destroy_task w x o).1 ≡ (if task_live o then x ∷ [] else [])
  unfolding destroy_task
  fired_of_task w x none = refl
  fired_of_task w x (some t) = ground arith

  release_ref-fired :
      (w : TimeTaskWheel C) (x : ℕ) → (release_ref w x).1 ≡ (if dies w x then x ∷ [] else [])
  unfolding release_ref
  release_ref-fired w x = ground (arith, fired_of_task w x (get_elem? w.heap x))

  release_ref-count_self :
      (w : TimeTaskWheel C) (x : ℕ) → count x (release_ref w x).1 ≡ (if dies w x then 1 else 0)
  unfolding count
  release_ref-count_self w x = rw (release_ref-fired w x) (ground arith)

  release_ref-count_ne : (w : TimeTaskWheel C) (x y : ℕ) → x ≢ y → count y (release_ref w x).1 ≡ 0
  unfolding count
  release_ref-count_ne w x y ne = rw (release_ref-fired w x) (ground arith)

  -- One pointer of the slot that is cleared is gone.
  abbrev popped : TimeTaskWheel C → List ℕ → TimeTaskWheel C
  popped w rest = record w { wheels = set w.wheels w.tick rest }

  clear_slot-count :
      (refs : List ℕ) (w : TimeTaskWheel C) (y : ℕ)
      → w.tick < length w.wheels
      → slot w.wheels w.tick ≡ refs
      → count y (clear_slot w refs).1
        ≡ runs (count y refs) (use_count y w.wheels) (task_live (get_elem? w.heap y))
  unfolding clear_slot count
  clear_slot-count [] w y h e = refl
  clear_slot-count (x ∷ rest) w y h e =
      rw
        (
          count-append y (release_ref (popped w rest) x).1
              (clear_slot (release_ref (popped w rest) x).0 rest).1,
          clear_slot-count rest w1 y (rw (release_ref-tick (popped w rest) x, size) h) (
                rw (release_ref-wheels (popped w rest) x, release_ref-tick (popped w rest) x)
                  (slot-set_self w.wheels w.tick rest h))
              ∙ ap₂ (λ ws hp. runs (count y rest) (use_count y ws) (task_live (get_elem? hp y)))
                  (release_ref-wheels (popped w rest) x) (release_ref-heap (popped w rest) x),
        )
        (elim (ℕ_discrete x y) [
          | yes same ↦
              rw (same, release_ref-count_self (popped w rest) y, ==_refl y)
                (runs_self (task_live (get_elem? w.heap y)) (use_count y w.wheels)
                  (use_count y (set w.wheels w.tick rest)) (count y rest) (ground (arith, left))
                  bound)
          | no ne ↦ rw (release_ref-count_ne (popped w rest) x y ne) (ground (arith, left))
        ])
    where
      w1 : TimeTaskWheel C
      w1 = (release_ref (popped w rest) x).0

      size : length w1.wheels ≡ length w.wheels
      size = rw (release_ref-wheels (popped w rest) x) (length-set w.wheels w.tick rest)

      left :
          use_count y (set w.wheels w.tick rest) + count y (x ∷ rest)
          ≡ use_count y w.wheels + count y rest
      left = omega (arith, use_count-set y w.wheels w.tick rest h, ap (count y) e)

      bound : count y rest ≤ use_count y (set w.wheels w.tick rest)
      bound = omega (
        arith,
        count-le-use_count y (set w.wheels w.tick rest) w.tick,
        ap (count y) (slot-set_self w.wheels w.tick rest h),
      )

  -- Clearing a slot empties it, and moves nothing else.
  record Cleared (w w' : TimeTaskWheel C) : Type 0 where
    wheels : w'.wheels ≡ set w.wheels w.tick []
    tick : w'.tick ≡ w.tick
    capacity : w'.capacity ≡ w.capacity
    heap : w'.heap ≡ w.heap

  clear_slot-Cleared :
      (refs : List ℕ) (w : TimeTaskWheel C)
      → slot w.wheels w.tick ≡ refs
      → w.tick < length w.wheels
      → Cleared w (clear_slot w refs).0
  unfolding clear_slot
  clear_slot-Cleared [] w e h = record {
    wheels = rw (← e) (sym (set-slot w.wheels w.tick));
    tick = refl;
    capacity = refl;
    heap = refl;
  }
  clear_slot-Cleared (x ∷ rest) w e h =
      let r = release_ref (popped w rest) x in
      let wh = release_ref-wheels (popped w rest) x in
      let tk = release_ref-tick (popped w rest) x in
      let c =
        clear_slot-Cleared rest r.0 (rw (wh, tk) (slot-set_self w.wheels w.tick rest h))
          (rw (wh, tk, length-set w.wheels w.tick rest) h) in
      record {
        wheels = c.wheels ∙ rw (wh, tk) (set-set w.wheels w.tick rest []);
        tick = c.tick ∙ tk;
        capacity = c.capacity ∙ release_ref-capacity (popped w rest) x;
        heap = c.heap ∙ release_ref-heap (popped w rest) x;
      }

-- The ring has 60 slots and the current one is among them.
pub record IsRing {C : Type 0} (w : TimeTaskWheel C) : Type 0 where
  pub sixty : w.capacity ≡ 60
  pub slots : length w.wheels ≡ 60
  pub tick_in : w.tick < 60

module _ {C : Type 0} (w : TimeTaskWheel C) (ring : IsRing w) where
  pub next_in : (w.tick + 1) % w.capacity < length w.wheels
  next_in = rw (ring.sixty, ring.slots) (omega arith)

  -- An advance runs a task exactly once when the slot that becomes current holds all the pointers
  -- to it, at least one, and it is not cancelled; any other task it does not run.
  pub run_timer-count :
      (y : ℕ)
      → count y (run_timer w).1
        ≡ runs
            (count y (slot w.wheels ((w.tick + 1) % w.capacity)))
            (use_count y w.wheels)
            (task_live (get_elem? w.heap y))
  unfolding run_timer
  run_timer-count y =
      clear_slot-count (slot w.wheels ((w.tick + 1) % w.capacity)) (advance w) y next_in refl

  pub run_timer-wheels : (run_timer w).0.wheels ≡ set w.wheels ((w.tick + 1) % w.capacity) []
  unfolding run_timer
  run_timer-wheels =
      (clear_slot-Cleared (slot w.wheels ((w.tick + 1) % w.capacity)) (advance w) refl
        next_in).wheels

  pub run_timer-tick : (run_timer w).0.tick ≡ (w.tick + 1) % w.capacity
  unfolding run_timer
  run_timer-tick =
      (clear_slot-Cleared (slot w.wheels ((w.tick + 1) % w.capacity)) (advance w) refl next_in).tick

  pub run_timer-heap : (run_timer w).0.heap ≡ w.heap
  unfolding run_timer
  run_timer-heap =
      (clear_slot-Cleared (slot w.wheels ((w.tick + 1) % w.capacity)) (advance w) refl next_in).heap

  run_timer-capacity : (run_timer w).0.capacity ≡ w.capacity
  unfolding run_timer
  run_timer-capacity =
      (clear_slot-Cleared (slot w.wheels ((w.tick + 1) % w.capacity)) (advance w) refl
        next_in).capacity

  pub run_timer-IsRing : IsRing (run_timer w).0
  run_timer-IsRing = record {
    sixty = run_timer-capacity ∙ ring.sixty;
    slots = rw (run_timer-wheels, length-set w.wheels ((w.tick + 1) % w.capacity) []) ring.slots;
    tick_in = rw (run_timer-tick, ring.sixty) (omega arith);
  }
