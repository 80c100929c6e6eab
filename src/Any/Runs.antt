-- ===== src/Any/Runs.antt =====
-- Sequences of operations on Any objects, against a map from objects to values.
use high_concurrency_server.Common.{
  ℕ, ◌≡◌, ◌∙◌, refl, sym, ap, Option, none, some, List, [], ◌∷◌, ◌==◌, if◌then◌else◌, ◌>>=◌, arith,
  inl, inr, Bool-cases, Option-cases,
}
use high_concurrency_server.Any.{Anys, update, init, assign_value, assign, destroy, swap, get, put}
use high_concurrency_server.Any.Owner.{
  Owned, value, cut, placed, destroy-cut, cut-value, cut-Owned, placed-value, placed-Owned,
}
use high_concurrency_server.Any.Values.{
  assign_value-placed, assign_empty, assign_full, swap-value, swap-Owned, written, written-Owned,
  written-value, update-update,
}

-- `x = val`, `x = y`, `x.swap(y)`, `*x.Get<T>() = val` and `~Any()`.
pub data AnyCall (D : Type 0) : Type 0 where
  set : ℕ → D → AnyCall D
  copy exchange : ℕ → ℕ → AnyCall D
  modify : ℕ → D → AnyCall D
  end : ℕ → AnyCall D

module _ {D : Type 0} (type_of : D → ℕ) where
  unfoldable pub step : Anys D → AnyCall D → Option (Anys D)
  step s (set x d) = assign_value s x d
  step s (copy x y) = assign s x y
  step s (exchange x y) = some (swap s x y)
  step s (modify x d) = some (put type_of s x d)
  step s (end x) = destroy s x

  unfoldable pub run : Anys D → List (AnyCall D) → Option (Anys D)
  unfolding step
  run s [] = some s
  run s (call ∷ calls) = do s' ← step s call; run s' calls

  -- The value of `x` is written over by one of its type.
  abbrev pub modified : (ℕ → Option D) → ℕ → D → Option D → ℕ → Option D
  modified v x d none = v
  modified v x d (some e) = if type_of e == type_of d then update v x (some d) else v

  -- What a call means for the values.
  unfoldable pub meant : (ℕ → Option D) → AnyCall D → ℕ → Option D
  meant v (set x d) = update v x (some d)
  meant v (copy x y) = update v x (v y)
  meant v (exchange x y) = update (update v x (v y)) y (v x)
  meant v (modify x d) = modified v x d (v x)
  meant v (end x) = update v x none

  unfoldable pub meant_all : (ℕ → Option D) → List (AnyCall D) → ℕ → Option D
  unfolding meant
  meant_all v [] = v
  meant_all v (call ∷ calls) = meant_all (meant v call) calls

  abbrev Stepped : Anys D → AnyCall D → Type 0
  Stepped s call =
      (s' : Anys D) × (step s call ≡ some s') × Owned s' × (value s' ≡ meant (value s) call)

  set-Stepped : (s : Anys D) (x : ℕ) (d : D) → Owned s → Stepped s (set x d)
  unfolding step meant
  set-Stepped s x d o =
      let o1 = cut-Owned s x o in
      let empty : (cut s x).content x ≡ none = ground arith in
      (
        placed (cut s x) x d,
        assign_value-placed s x d o,
        placed-Owned (cut s x) x d o1 empty,
        placed-value (cut s x) x d o1
            ∙ ap (λ v. update v x (some d)) (cut-value s x o)
            ∙ update-update (value s) x none (some d),
      )

  end-Stepped : (s : Anys D) (x : ℕ) → Owned s → Stepped s (end x)
  unfolding step meant
  end-Stepped s x o = (cut s x, destroy-cut s x o, cut-Owned s x o, cut-value s x o)

  copy-Stepped : (s : Anys D) (x y : ℕ) → Owned s → Stepped s (copy x y)
  unfolding step meant
  copy-Stepped s x y o = elim (Option-cases (s.content y)) [
    | inl empty ↦
        let (s', e, o', v) = end-Stepped s x o in
        let nothing : value s y ≡ none = rw empty refl in
        (s', assign_empty s x y empty ∙ e, o', v ∙ ap (update (value s) x) (sym nothing))
    | inr (p, h) ↦
        let (d, c) = o.live y p h in
        let (s', e, o', v) = set-Stepped s x d o in
        let held : value s y ≡ some d = rw h c in
        (s', assign_full s x y p d h c ∙ e, o', v ∙ ap (update (value s) x) (sym held))
  ]

  get_empty : (s : Anys D) (x t : ℕ) → s.content x ≡ none → get type_of s x t ≡ none
  unfolding get
  get_empty s x t e = rw e refl

  get_typed :
      (s : Anys D) (x t p : ℕ) (d : D)
      → s.content x ≡ some p
      → s.heap.cell p ≡ some d
      → get type_of s x t ≡ (if type_of d == t then some p else none)
  unfolding get
  get_typed s x t p d h c = rw (h, c) refl

  put_found :
      (s : Anys D) (x : ℕ) (d : D) (o : Option ℕ)
      → get type_of s x (type_of d) ≡ o
      → put type_of s x d ≡ elim o [ none ↦ s | some p ↦ written s p d ]
  unfolding put
  put_found s x d none e = rw (e, put) refl
  put_found s x d (some p) e = rw (e, put) refl

  modify-Stepped : (s : Anys D) (x : ℕ) (d : D) → Owned s → Stepped s (modify x d)
  unfolding step meant
  modify-Stepped s x d o = elim (Option-cases (s.content x)) [
    | inl empty ↦
        let same : put type_of s x d ≡ s = put_found s x d none (get_empty s x (type_of d) empty) in
        (s, ap some same, o, rw empty refl)
    | inr (p, h) ↦
        let (e, c) = o.live x p h in
        elim (Bool-cases (type_of e == type_of d)) [
          | inl same ↦ (
            written s p d,
            ap some (put_found s x d (some p) (get_typed s x (type_of d) p e h c ∙ rw same refl)),
            written-Owned s x p d e o h c,
            rw (h, c, same) (written-value s x p d o h),
          )
          | inr other ↦ (
            s,
            ap some (put_found s x d none (get_typed s x (type_of d) p e h c ∙ rw other refl)),
            o,
            rw (h, c, other) refl,
          )
        ]
  ]

  step-Stepped : (s : Anys D) (call : AnyCall D) → Owned s → Stepped s call
  unfolding step meant
  step-Stepped s (set x d) o = set-Stepped s x d o
  step-Stepped s (copy x y) o = copy-Stepped s x y o
  step-Stepped s (exchange x y) o = (swap s x y, refl, swap-Owned s x y o, swap-value s x y)
  step-Stepped s (modify x d) o = modify-Stepped s x d o
  step-Stepped s (end x) o = end-Stepped s x o

  -- Every sequence of operations on Any objects that own their holders runs to its end: no holder is
  -- read or deleted behind its `delete`. The objects own their holders again, so that none is lost,
  -- and each object has the value that the operations mean: copies are independent.
  pub run-meant_all :
      (s : Anys D) (calls : List (AnyCall D))
      → Owned s
      → (s' : Anys D) × (run s calls ≡ some s') × Owned s' × (value s' ≡ meant_all (value s) calls)
  unfolding run meant_all
  run-meant_all s [] o = (s, refl, o, refl)
  run-meant_all s (call ∷ calls) o =
      let (s1, e, o1, v1) = step-Stepped s call o in
      let (s', r, o', v) = run-meant_all s1 calls o1 in
      (s', rw e r, o', v ∙ ap (λ v. meant_all v calls) v1)

pub init-Owned : {D : Type 0} → Owned {D = D} init
unfolding init
init-Owned = record {
  live = λ x p e. absurd (let q : none ≡ some p = e in cc);
  fresh = λ p h. refl;
  apart = λ x y p e f. absurd (let q : none ≡ some p = e in cc);
  owned = λ p d e. absurd (let q : none ≡ some d = e in cc);
}
