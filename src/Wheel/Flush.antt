-- ===== src/Wheel/Flush.antt =====
-- `flush_time_task` and `remove_time_task`: the entry that they use is never dangling.
use native.Mathlib.Decide.{ℕ_discrete}
use mathlib.Core.Path.{subst}
use high_concurrency_server.Common.{
  some-cancel, ℕ, ◌+◌, ◌%◌, ◌^◌, ◌≤◌, ◌<◌, ◌≡◌, ◌∙◌, sym, refl, ap, true, Option, some, none,
  length, length-set, get_elem?, set, arith, lt→ltb, lt_of_get_elem?, get_elem?-set_self,
  get_elem?-set_ne, ◌>>=◌,
}
use high_concurrency_server.Wheel.{
  TimeTask, TimeTaskWheel, push_back, flush_time_task, flush_entry, flush_pos, find, lock,
  remove_time_task, remove_entry, cancel,
}
use high_concurrency_server.Wheel.Fire.{IsRing}
use high_concurrency_server.Wheel.Inv.{IsValid, Owned, push_back_lem, pushed, pushed-IsValid}

module _ {C : Type 0} where
  pub lock-Owned :
      (w : TimeTaskWheel C) (id r : ℕ) → Owned w.wheels w.heap id r → lock w r ≡ get_elem? w.heap r
  unfolding lock
  lock-Owned w id r o = ground (arith, o.0)

  flush_pos_lem :
      (w : TimeTaskWheel C) (delay : ℕ)
      → IsRing w
      → delay + 60 ≤ 2 ^ 31
      → flush_pos w delay ≡ some ((delay + w.tick) % 60)
  unfolding flush_pos
  flush_pos_lem w delay v h =
      let cut : delay % 2 ^ 32 ≡ delay = omega arith in
      rw (
        cut,
        lt→ltb delay (2 ^ 31) (omega arith),
        lt→ltb (delay + w.tick) (2 ^ 31) (omega (arith, v.tick_in)),
        v.sixty,
      )

  flush_pos-lt :
      (w : TimeTaskWheel C) (delay pos : ℕ) → IsRing w → flush_pos w delay ≡ some pos → pos < 60
  unfolding flush_pos
  flush_pos-lt w delay pos v h = ground (arith, v.sixty)

  -- On a valid wheel `flush_time_task` finds a live task behind the entry of its id, and puts one
  -- more pointer to it `delay` slots ahead of the current one, if the delay fits an `int`.
  pub flush_time_task_lem :
      (w : TimeTaskWheel C) (id r : ℕ) (t : TimeTask C)
      → IsValid w
      → find w.timers id ≡ some r
      → get_elem? w.heap r ≡ some t
      → t.time + 60 ≤ 2 ^ 31
      → flush_time_task w id ≡ some (pushed w ((t.time + w.tick) % 60) r)
  unfolding flush_time_task flush_entry
  flush_time_task_lem w id r t v e g h =
      rw (e, lock-Owned w id r (v.entries id r e), g, flush_pos_lem w t.time v.ring h)
        (push_back_lem w ((t.time + w.tick) % 60) r (omega (arith, v.ring.slots)))

  -- An id that is not in the map is left alone.
  pub flush_time_task_absent :
      (w : TimeTaskWheel C) (id : ℕ) → find w.timers id ≡ none → flush_time_task w id ≡ some w
  unfolding flush_time_task flush_entry
  flush_time_task_absent w id e = rw e

  -- Whatever `flush_time_task` leaves is valid.
  pub flush_time_task-IsValid :
      (w w' : TimeTaskWheel C) (id : ℕ) → IsValid w → flush_time_task w id ≡ some w' → IsValid w'
  unfolding flush_time_task
  flush_time_task-IsValid w w' id v h = go (find w.timers id) refl h
    where
      entry :
          (x : ℕ)
          → find w.timers id ≡ some x
          → (t : TimeTask C) → get_elem? w.heap x ≡ some t
          → (o : Option ℕ) → flush_pos w t.time ≡ o
          → (o >>= λ pos. push_back w pos x) ≡ some w'
          → IsValid w'
      entry x e t g none q k = cc
      entry x e t g (some pos) q k =
          let lt : pos < length w.wheels =
            omega (arith, flush_pos-lt w t.time pos v.ring q, v.ring.slots) in
          subst IsValid (some-cancel (sym (push_back_lem w pos x lt) ∙ k))
            (pushed-IsValid w pos x v lt (lt_of_get_elem? w.heap x g))

      go : (o : Option ℕ) → find w.timers id ≡ o → flush_entry w o ≡ some w' → IsValid w'
      go none e k = unfold flush_entry in subst IsValid (some-cancel k) v
      go (some x) e k =
          let (t, g, i) = (v.entries id x e).1 in
          entry x e t g (flush_pos w t.time) refl
            (unfold flush_entry in rw (lock-Owned w id x (v.entries id x e), g) at k)

  -- `remove_time_task` of an id in the map cancels the task behind it.
  pub remove_time_task_lem :
      (w : TimeTaskWheel C) (id r : ℕ) (t : TimeTask C)
      → IsValid w
      → find w.timers id ≡ some r
      → get_elem? w.heap r ≡ some t
      → remove_time_task w id ≡ record w { heap = set w.heap r (record t { canceled = true }) }
  unfolding remove_time_task remove_entry cancel
  remove_time_task_lem w id r t v e g = rw (e, lock-Owned w id r (v.entries id r e), g)

  -- `remove_time_task` keeps the wheel valid.
  pub remove_time_task-IsValid :
      (w : TimeTaskWheel C) (id : ℕ) → IsValid w → IsValid (remove_time_task w id)
  unfolding remove_time_task
  remove_time_task-IsValid w id v = go (find w.timers id) refl
    where
      marked :
          (x : ℕ) (t : TimeTask C)
          → get_elem? w.heap x ≡ some t
          → IsValid (record w { heap = set w.heap x (record t { canceled = true }) })
      marked x t g = record {
        ring = record { sixty = v.ring.sixty; slots = v.ring.slots; tick_in = v.ring.tick_in };
        fresh =
            λ y e. v.fresh y (omega (arith, length-set w.heap x (record t { canceled = true })));
        entries = λ j r e. (
          (v.entries j r e).0,
          elim (ℕ_discrete x r) [
            | yes same ↦
                let (t', g', i) = (v.entries j r e).1 in
                let one : t ≡ t' = some-cancel (sym g ∙ ap (get_elem? w.heap) same ∙ g') in
                (
                  record t { canceled = true },
                  rw (← same) (
                      get_elem?-set_self w.heap x (record t { canceled = true })
                        (lt_of_get_elem? w.heap x g)),
                  ap (λ (z : TimeTask C). z.id) one ∙ i,
                )
            | no ne ↦
                let (t', g', i) = (v.entries j r e).1 in
                (t', get_elem?-set_ne w.heap x r (record t { canceled = true }) ne ∙ g', i)
          ],
        );
      }

      go : (o : Option ℕ) → find w.timers id ≡ o → IsValid (remove_entry w o)
      go none e = unfold remove_entry in v
      go (some x) e =
          let (t, g, i) = (v.entries id x e).1 in
          unfold remove_entry cancel in rw (lock-Owned w id x (v.entries id x e), g) (marked x t g)

  pub remove_time_task_absent :
      (w : TimeTaskWheel C) (id : ℕ) → find w.timers id ≡ none → remove_time_task w id ≡ w
  unfolding remove_time_task remove_entry
  remove_time_task_absent w id e = rw e
