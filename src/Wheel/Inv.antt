-- ===== src/Wheel/Inv.antt =====
-- The invariant of the timer wheel: every entry of `_timers` leads to a task that still has an
-- owner in the ring and whose id is the entry's key; `set_time_task` keeps it.
use high_concurrency_server.Common.{
  ℕ, zero, suc, ◌+◌, ◌≤◌, ◌<◌, ◌≡◌, ◌∙◌, sym, refl, inl, inr, false, some, none, List, [], ◌∷◌,
  ◌++◌, length, length-set, length-append, length-replicate, replicate, get_elem?, set, arith, ◌==◌,
  ==_iff, if◌then◌else◌, Bool-cases, lt→ltb, get_elem?-append_lt, get_elem?-append_length,
  lt_of_get_elem?,
}
use high_concurrency_server.Wheel.{
  TimeTask, TimeTaskWheel, init, count, use_count, slot, set_time_task, push_back, set_pos, find,
  erase, assign,
}
use high_concurrency_server.Wheel.Counts.{count-append, count_one, use_count-set}
use high_concurrency_server.Wheel.Fire.{IsRing}

pub find-erase :
    (m : List (ℕ × ℕ)) (i j : ℕ) → find (erase m i) j ≡ (if i == j then none else find m j)
unfolding find erase
find-erase [] i j = ground arith
find-erase ((k, r) ∷ m) i j = ground (arith, find-erase m i j)

pub find-assign :
    (m : List (ℕ × ℕ)) (i r j : ℕ) → find (assign m i r) j ≡ (if i == j then some r else find m j)
unfolding assign find
find-assign m i r j = ground (arith, find-erase m i j)

-- The task behind a reference is owned by a slot, and has this id.
abbrev pub Owned : {C : Type 0} → List (List ℕ) → List (TimeTask C) → ℕ → ℕ → Type 0
Owned {C} ws heap id r =
    (0 < use_count r ws) × ((t : TimeTask C) × (get_elem? heap r ≡ some t) × (t.id ≡ id))

pub record IsValid {C : Type 0} (w : TimeTaskWheel C) : Type 0 where
  pub ring : IsRing w
  pub fresh : (y : ℕ) → length w.heap ≤ y → use_count y w.wheels ≡ 0
  pub entries : (id r : ℕ) → find w.timers id ≡ some r → Owned w.wheels w.heap id r

use_count_empty : (n y : ℕ) → use_count y (replicate n []) ≡ 0
unfolding use_count count
use_count_empty zero y = refl
use_count_empty (suc n) y = omega (arith, use_count_empty n y)

module _ {C : Type 0} where
  pub init-IsValid : IsValid (init {C = C})
  unfolding init find
  init-IsValid = record {
    ring = record {
      sixty = refl;
      slots = length-replicate {A = List ℕ} 60 [];
      tick_in = omega arith;
    };
    fresh = λ y h. use_count_empty 60 y;
    entries = λ id r e. cc;
  }

  -- A pointer more leaves what is owned owned.
  abbrev pub pushed : TimeTaskWheel C → ℕ → ℕ → TimeTaskWheel C
  pushed w pos x = record w { wheels = set w.wheels pos (slot w.wheels pos ++ x ∷ []) }

  pub push_back_lem :
      (w : TimeTaskWheel C) (pos x : ℕ)
      → pos < length w.wheels
      → push_back w pos x ≡ some (pushed w pos x)
  unfolding push_back
  push_back_lem w pos x h = rw (lt→ltb pos (length w.wheels) h)

  pub use_count-pushed :
      (w : TimeTaskWheel C) (pos x y : ℕ)
      → pos < length w.wheels
      → use_count y (pushed w pos x).wheels ≡ use_count y w.wheels + (if x == y then 1 else 0)
  use_count-pushed w pos x y h = omega (
    arith,
    use_count-set y w.wheels pos (slot w.wheels pos ++ x ∷ []) h,
    count-append y (slot w.wheels pos) (x ∷ []),
    count_one y x,
  )

  pub pushed-IsRing : (w : TimeTaskWheel C) (pos x : ℕ) → IsRing w → IsRing (pushed w pos x)
  pushed-IsRing w pos x v = record {
    sixty = v.sixty;
    slots = rw (length-set w.wheels pos (slot w.wheels pos ++ x ∷ [])) v.slots;
    tick_in = v.tick_in;
  }

  pub pushed-IsValid :
      (w : TimeTaskWheel C) (pos x : ℕ)
      → IsValid w
      → pos < length w.wheels
      → x < length w.heap
      → IsValid (pushed w pos x)
  pushed-IsValid w pos x v h k = record {
    ring = pushed-IsRing w pos x v.ring;
    fresh = λ y e. ground (arith, use_count-pushed w pos x y h, v.fresh y e);
    entries = λ id r e.
        (ground (arith, use_count-pushed w pos x r h, (v.entries id r e).0), (v.entries id r e).1);
  }

  -- `set_time_task` before its pointer is pushed.
  abbrev pub registered : TimeTaskWheel C → ℕ → ℕ → C → TimeTaskWheel C
  registered w id time task = record w {
    heap = w.heap ++ record { id = id; time = time; task = task; canceled = false } ∷ [];
    timers = assign w.timers id (length w.heap);
  }

  -- What `set_time_task` leaves.
  abbrev pub scheduled : TimeTaskWheel C → ℕ → ℕ → C → TimeTaskWheel C
  scheduled w id time task = pushed (registered w id time task) (set_pos w time) (length w.heap)

  pub set_pos-lt : (w : TimeTaskWheel C) (time : ℕ) → IsRing w → set_pos w time < length w.wheels
  unfolding set_pos
  set_pos-lt w time v = rw (v.sixty, v.slots) (omega arith)

  -- `set_time_task` always finds its slot.
  pub set_time_task_lem :
      (w : TimeTaskWheel C) (id time : ℕ) (task : C)
      → IsRing w
      → set_time_task w id time task ≡ some (scheduled w id time task)
  unfolding set_time_task
  set_time_task_lem w id time task v =
      push_back_lem (registered w id time task) (set_pos w time) (length w.heap)
        (set_pos-lt w time v)

  pub use_count-scheduled :
      (w : TimeTaskWheel C) (id time : ℕ) (task : C) (y : ℕ)
      → IsRing w
      → use_count y (scheduled w id time task).wheels
        ≡ use_count y w.wheels + (if length w.heap == y then 1 else 0)
  use_count-scheduled w id time task y v =
      use_count-pushed (registered w id time task) (set_pos w time) (length w.heap) y
        (set_pos-lt w time v)

  scheduled-Owned :
      (w : TimeTaskWheel C) (id time : ℕ) (task : C)
      → IsValid w
      → (j r : ℕ) → (if id == j then some (length w.heap) else find w.timers j) ≡ some r
      → Owned (scheduled w id time task).wheels (scheduled w id time task).heap j r
  scheduled-Owned w id time task v j r e = elim (Bool-cases (id == j)) [
    | inl same ↦
        let at : length w.heap ≡ r = ground arith in
        (
          ground (arith, use_count-scheduled w id time task r v.ring),
          (
            record { id = id; time = time; task = task; canceled = false },
            rw (← at) (get_elem?-append_length w.heap _ []),
            (==_iff id j).0 same,
          ),
        )
    | inr other ↦
        let old = v.entries j r (ground arith) in
        let (t, g, i) = old.1 in
        (
          ground (arith, use_count-scheduled w id time task r v.ring, old.0),
          (t, get_elem?-append_lt w.heap _ r (lt_of_get_elem? w.heap r g) ∙ g, i),
        )
  ]

  pub scheduled-IsRing :
      (w : TimeTaskWheel C) (id time : ℕ) (task : C) → IsRing w → IsRing (scheduled w id time task)
  scheduled-IsRing w id time task v =
      pushed-IsRing (registered w id time task) (set_pos w time) (length w.heap)
        (record { sixty = v.sixty; slots = v.slots; tick_in = v.tick_in })

  -- `set_time_task` succeeds on a valid wheel and keeps it valid, also under an id that is in use.
  pub set_time_task-IsValid :
      (w : TimeTaskWheel C) (id time : ℕ) (task : C)
      → IsValid w
      → (w' : TimeTaskWheel C) × (set_time_task w id time task ≡ some w') × IsValid w'
  set_time_task-IsValid w id time task v = (
    scheduled w id time task,
    set_time_task_lem w id time task v.ring,
    record {
      ring = scheduled-IsRing w id time task v.ring;
      fresh = λ y e. ground (
        arith,
        use_count-scheduled w id time task y v.ring,
        v.fresh y,
        length-append w.heap (record { id = id; time = time; task = task; canceled = false } ∷ []),
      );
      entries = λ j r e.
          scheduled-Owned w id time task v j r
            (sym (find-assign w.timers id (length w.heap) j) ∙ e);
    },
  )
