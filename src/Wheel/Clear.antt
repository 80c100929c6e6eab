-- ===== src/Wheel/Clear.antt =====
-- `run_timer` keeps the wheel valid: a task that dies takes its own entry along.
use native.Mathlib.Decide.{ℕ_discrete}
use high_concurrency_server.Common.{
  get_elem?_lt, some-cancel, ℕ, ◌+◌, ◌%◌, ◌≤◌, ◌<◌, ◌≡◌, ◌≢◌, ◌∙◌, sym, refl, ap, inl, inr, some,
  List, [], ◌∷◌, length, length-set, get_elem?, set, arith, ◌==◌, ==_refl, Bool-cases,
}
use high_concurrency_server.Wheel.{
  TimeTask, TimeTaskWheel, count, use_count, slot, run_timer, find, clear_slot, release_ref,
  destroy_task, excute_timer, advance,
}
use high_concurrency_server.Wheel.Counts.{use_count-set, count-le-use_count, slot-set_self}
use high_concurrency_server.Wheel.Fire.{
  release_ref-wheels, release_ref-tick, release_ref-heap, next_in, run_timer-IsRing,
}
use high_concurrency_server.Wheel.Inv.{IsValid, Owned, find-erase}

module _ {C : Type 0} where
  -- The entries and the fresh references while a slot is being cleared.
  abbrev HasEntries : TimeTaskWheel C → Type 0
  HasEntries w = (id r : ℕ) → find w.timers id ≡ some r → Owned w.wheels w.heap id r

  abbrev HasFresh : TimeTaskWheel C → Type 0
  HasFresh w = (y : ℕ) → length w.heap ≤ y → use_count y w.wheels ≡ 0

  -- A destroyed task takes its own entry along.
  destroyed-HasEntries :
      (w : TimeTaskWheel C) (x : ℕ) (t : TimeTask C)
      → get_elem? w.heap x ≡ some t
      → ((id r : ℕ)
          → find w.timers id ≡ some r
          → ((t : TimeTask C) × (get_elem? w.heap r ≡ some t) × (t.id ≡ id)))
      → ((id r : ℕ) → find w.timers id ≡ some r → r ≢ x → 0 < use_count r w.wheels)
      → HasEntries (excute_timer w t.id)
  unfolding excute_timer
  destroyed-HasEntries w x t g known rest j r e = elim (Bool-cases (t.id == j)) [
    | inl same ↦ absurd (ground (arith, find-erase w.timers t.id j))
    | inr other ↦
        let old : find w.timers j ≡ some r = ground (arith, find-erase w.timers t.id j) in
        let (t', g', i) = known j r old in
        let ne : r ≢ x = λ same.
          let one : t ≡ t' = some-cancel (sym g ∙ ap (get_elem? w.heap) (sym same) ∙ g') in
          ground (arith, ap (λ (z : TimeTask C). z.id) one, i) in
        (rest j r old ne, (t', g', i))
  ]

  -- One pointer of the current slot is taken out of the ring.
  module _ (w : TimeTaskWheel C) (x : ℕ) (rest : List ℕ) (at : slot w.wheels w.tick ≡ x ∷ rest)
      (h : w.tick < length w.wheels) where
    abbrev popped : TimeTaskWheel C
    popped = record w { wheels = set w.wheels w.tick rest }

    popped_other : (y : ℕ) → y ≢ x → use_count y popped.wheels ≡ use_count y w.wheels
    unfolding count
    popped_other y ne =
        let sum : use_count y popped.wheels + count y (x ∷ rest)
            ≡ use_count y w.wheels + count y rest =
          omega (arith, use_count-set y w.wheels w.tick rest h, ap (count y) at) in
        ground (arith, sum)

    popped-le : (y : ℕ) → use_count y popped.wheels ≤ use_count y w.wheels
    unfolding count
    popped-le y =
        let sum : use_count y popped.wheels + count y (x ∷ rest)
            ≡ use_count y w.wheels + count y rest =
          omega (arith, use_count-set y w.wheels w.tick rest h, ap (count y) at) in
        ground (arith, sum)

    held : 0 < use_count x w.wheels
    unfolding count
    held =
        let one : 0 < count x (x ∷ rest) = ground (arith, ==_refl x) in
        omega (arith, count-le-use_count x w.wheels w.tick, ap (count x) at, one)

    release-HasEntries : HasFresh w → HasEntries w → HasEntries (release_ref popped x).0
    unfolding release_ref destroy_task
    release-HasEntries f v = elim (Bool-cases (use_count x popped.wheels == 0)) [
      | inl dead ↦
          let (t, g) = get_elem?_lt w.heap x (ground (arith, f x, held)) in
          rw (dead, g)
            (destroyed-HasEntries popped x t g (λ j r e. (v j r e).1)
              (λ j r e ne. omega (arith, popped_other r ne, (v j r e).0)))
      | inr alive ↦ rw alive (λ j r e. (
        elim (ℕ_discrete r x) [
          | yes same ↦ rw same (ground (arith, alive))
          | no ne ↦ omega (arith, popped_other r ne, (v j r e).0)
        ],
        (v j r e).1,
      ))
    ]

    release-HasFresh : HasFresh w → HasFresh (release_ref popped x).0
    release-HasFresh f = λ y e. rw (release_ref-wheels popped x) (
        let zero_before = f y (rw (release_ref-heap popped x) at e) in
        omega (arith, popped-le y, zero_before))

  clear_slot-entries :
      (refs : List ℕ) (w : TimeTaskWheel C)
      → slot w.wheels w.tick ≡ refs
      → w.tick < length w.wheels
      → HasFresh w
      → HasEntries w
      → HasFresh (clear_slot w refs).0 × HasEntries (clear_slot w refs).0
  unfolding clear_slot
  clear_slot-entries [] w at h f v = (f, v)
  clear_slot-entries (x ∷ rest) w at h f v =
      let p = popped w x rest at h in
      let wh = release_ref-wheels p x in
      let tk = release_ref-tick p x in
      clear_slot-entries rest (release_ref p x).0
        (rw (wh, tk) (slot-set_self w.wheels w.tick rest h))
        (rw (wh, tk, length-set w.wheels w.tick rest) h) (release-HasFresh w x rest at h f)
        (release-HasEntries w x rest at h f v)

  -- `run_timer` keeps the wheel valid.
  pub run_timer-IsValid : (w : TimeTaskWheel C) → IsValid w → IsValid (run_timer w).0
  unfolding run_timer
  run_timer-IsValid w v =
      let (f, e) =
        clear_slot-entries (slot w.wheels ((w.tick + 1) % w.capacity)) (advance w) refl
          (next_in w v.ring) v.fresh v.entries in
      record { ring = run_timer-IsRing w v.ring; fresh = f; entries = e }
