-- ===== src/Wheel/Calls.antt =====
-- Any sequence of calls on the wheel.
use native.Mathlib.Decide.{ℕ_discrete}
use mathlib.Core.Path.{subst}
use high_concurrency_server.Common.{
  All, true, false, ℕ, ◌+◌, ◌^◌, ◌≤◌, ◌<◌, ◌≡◌, ◌∙◌, sym, refl, ap, Option, some, List, [], ◌∷◌,
  ◌++◌, inl, inr, length, get_elem?, set, arith, some-cancel, Option-cases, ◌>>=◌,
  get_elem?-append_lt, get_elem?-append_length, lt_of_get_elem?, get_elem?-set_self,
  get_elem?-set_ne, length-append,
}
use high_concurrency_server.Wheel.{
  TimeTask, TimeTaskWheel, init, run_timer, set_time_task, flush_time_task, find, remove_time_task,
}
use high_concurrency_server.Wheel.Inv.{
  IsValid, init-IsValid, set_time_task-IsValid, set_time_task_lem,
}
use high_concurrency_server.Wheel.Flush.{
  flush_time_task_lem, flush_time_task_absent, flush_time_task-IsValid, remove_time_task-IsValid,
  remove_time_task_lem, remove_time_task_absent,
}
use high_concurrency_server.Wheel.Clear.{run_timer-IsValid}
use high_concurrency_server.Wheel.Fire.{run_timer-heap}

-- What the event loop can ask of the wheel.
pub data Call (C : Type 0) : Type 0 where
  add : ℕ → ℕ → C → Call C
  flush : ℕ → Call C
  remove : ℕ → Call C
  expire : Call C

module _ {C : Type 0} where
  unfoldable pub step : TimeTaskWheel C → Call C → Option (TimeTaskWheel C)
  step w (add id time task) = set_time_task w id time task
  step w (flush id) = flush_time_task w id
  step w (remove id) = some (remove_time_task w id)
  step w expire = some (run_timer w).0

  unfoldable pub run : TimeTaskWheel C → List (Call C) → Option (TimeTaskWheel C)
  run w [] = some w
  run w (c ∷ cs) = step w c >>= λ w'. run w' cs

  -- A delay with any tick added fits an `int`.
  abbrev pub IsShort : Call C → Type 0
  IsShort (add id time task) = time + 60 ≤ 2 ^ 31
  IsShort (flush id) = Unit {0}
  IsShort (remove id) = Unit {0}
  IsShort expire = Unit {0}

  abbrev pub AllShort : List (Call C) → Type 0
  AllShort = All IsShort

  -- The invariant with the delays of the tasks.
  pub record IsSafe (w : TimeTaskWheel C) : Type 0 where
    pub valid : IsValid w
    pub short : (r : ℕ) (t : TimeTask C) → get_elem? w.heap r ≡ some t → t.time + 60 ≤ 2 ^ 31

  pub init-IsSafe : IsSafe init
  unfolding init
  init-IsSafe = record { valid = init-IsValid; short = λ r t e. cc }

  add-short :
      (heap : List (TimeTask C)) (new : TimeTask C)
      → new.time + 60 ≤ 2 ^ 31
      → ((r : ℕ) (t : TimeTask C) → get_elem? heap r ≡ some t → t.time + 60 ≤ 2 ^ 31)
      → (r : ℕ) (t : TimeTask C) → get_elem? (heap ++ new ∷ []) r ≡ some t
      → t.time + 60 ≤ 2 ^ 31
  add-short heap new h old r t e = elim (ℕ_discrete r (length heap)) [
    | yes last ↦
        let one : new ≡ t = some-cancel (
          sym (get_elem?-append_length heap new [])
          ∙ ap (get_elem? (heap ++ new ∷ [])) (sym last)
          ∙ e) in
        subst (λ (z : TimeTask C). z.time + 60 ≤ 2 ^ 31) one h
    | no ne ↦
        let lt : r < length heap =
          omega (arith, lt_of_get_elem? (heap ++ new ∷ []) r e, length-append heap (new ∷ [])) in
        old r t (sym (get_elem?-append_lt heap (new ∷ []) r lt) ∙ e)
  ]

  cancel-short :
      (heap : List (TimeTask C)) (x : ℕ) (u : TimeTask C)
      → get_elem? heap x ≡ some u
      → ((r : ℕ) (t : TimeTask C) → get_elem? heap r ≡ some t → t.time + 60 ≤ 2 ^ 31)
      → (r : ℕ) (t : TimeTask C) → get_elem? (set heap x (record u { canceled = true })) r ≡ some t
      → t.time + 60 ≤ 2 ^ 31
  cancel-short heap x u g old r t e = elim (ℕ_discrete x r) [
    | yes same ↦
        let one : record u { canceled = true } ≡ t = some-cancel (
          sym (get_elem?-set_self heap x (record u { canceled = true }) (lt_of_get_elem? heap x g))
          ∙ ap (get_elem? (set heap x (record u { canceled = true }))) same
          ∙ e) in
        subst (λ (z : TimeTask C). z.time + 60 ≤ 2 ^ 31) one (old x u g)
    | no ne ↦ old r t (sym (get_elem?-set_ne heap x r (record u { canceled = true }) ne) ∙ e)
  ]

  remove-short :
      (w : TimeTaskWheel C) (id : ℕ)
      → IsSafe w
      → (r : ℕ) (t : TimeTask C) → get_elem? (remove_time_task w id).heap r ≡ some t
      → t.time + 60 ≤ 2 ^ 31
  remove-short w id s r t e = elim (Option-cases (find w.timers id)) [
    | inl missing ↦ s.short r t (rw (remove_time_task_absent w id missing) at e)
    | inr (x, found) ↦
        let (u, g, i) = (s.valid.entries id x found).1 in
        cancel-short w.heap x u g s.short r t
          (rw (remove_time_task_lem w id x u s.valid found g) at e)
  ]

  -- A call succeeds on a safe wheel and leaves a safe one.
  pub step-IsSafe :
      (w : TimeTaskWheel C) (c : Call C)
      → IsSafe w
      → IsShort c
      → (w' : TimeTaskWheel C) × (step w c ≡ some w') × IsSafe w'
  unfolding step
  step-IsSafe w (add id time task) s h =
      let (w', e, v) = set_time_task-IsValid w id time task s.valid in
      let same = some-cancel (sym (set_time_task_lem w id time task s.valid.ring) ∙ e) in
      (
        w',
        e,
        record {
          valid = v;
          short =
              subst
                (λ (z : TimeTaskWheel C).
                  (r : ℕ) (t : TimeTask C) → get_elem? z.heap r ≡ some t → t.time + 60 ≤ 2 ^ 31)
                same
                (add-short w.heap (record { id = id; time = time; task = task; canceled = false }) h
                  s.short);
        },
      )
  step-IsSafe w (flush id) s h = elim (Option-cases (find w.timers id)) [
    | inl missing ↦ (w, flush_time_task_absent w id missing, s)
    | inr (x, found) ↦
        let (t, g, i) = (s.valid.entries id x found).1 in
        let e = flush_time_task_lem w id x t s.valid found g (s.short x t g) in
        (_, e, record { valid = flush_time_task-IsValid w _ id s.valid e; short = s.short })
  ]
  step-IsSafe w (remove id) s h = (
    remove_time_task w id,
    refl,
    record { valid = remove_time_task-IsValid w id s.valid; short = remove-short w id s },
  )
  step-IsSafe w expire s h = (
    (run_timer w).0,
    refl,
    record {
      valid = run_timer-IsValid w s.valid;
      short = λ r t e. s.short r t (rw (run_timer-heap w s.valid.ring) at e);
    },
  )

  -- No sequence of calls on a safe wheel, with delays of at most 2 ^ 31 - 60, which is below the
  -- largest `int` by 59, since the current tick is added to a delay, follows a null pointer, leaves
  -- the ring or overflows: each call succeeds, and afterwards every entry of `_timers` leads to a task
  -- that is still in the ring and has the entry's id.
  pub run-IsSafe :
      (cs : List (Call C)) (w : TimeTaskWheel C)
      → IsSafe w
      → AllShort cs
      → (w' : TimeTaskWheel C) × (run w cs ≡ some w') × IsSafe w'
  unfolding run
  run-IsSafe [] w s h = (w, refl, s)
  run-IsSafe (c ∷ cs) w s h =
      let (w1, e, s1) = step-IsSafe w c s h.0 in
      let (w2, e2, s2) = run-IsSafe cs w1 s1 h.1 in (w2, rw e e2, s2)
