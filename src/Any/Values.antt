-- ===== src/Any/Values.antt =====
-- Any objects behave like the values that they hold, and manage their holders.
use mathlib.Core.Path.{fun_ext}
use high_concurrency_server.Common.{
  ℕ, ◌≡◌, ◌≢◌, ◌∙◌, refl, sym, ap, false, none, some, ◌==◌, if◌then◌else◌, ◌>>=◌, arith, inl, inr,
  ==_iff, Bool-cases, Option-cases,
}
use high_concurrency_server.Any.{
  Anys, update, alloc, delete_content, clone_content, assign_value, assign, destroy, swap,
}
use high_concurrency_server.Any.Owner.{Owned, value, cut, placed}

pub update-update :
    {A : Type 0} (f : ℕ → A) (x : ℕ) (a b : A) → update (update f x a) x b ≡ update f x b
update-update f x a b = fun_ext (λ y. ground arith)

update_comm :
    {A : Type 0} (f : ℕ → A) (x y : ℕ) (a b : A)
    → x ≢ y
    → update (update f x a) y b ≡ update (update f y b) x a
update_comm f x y a b h = fun_ext (λ z. ground arith)

-- Which object has the content of `z` behind a swap.
turn : ℕ → ℕ → ℕ → ℕ
turn x y z = if y == z then x else if x == z then y else z

turn_twice : (x y z : ℕ) → turn x y (turn x y z) ≡ z
unfolding turn
turn_twice x y z = ground arith

update-turn :
    {A : Type 0} (f : ℕ → A) (x y z : ℕ) → update (update f x (f y)) y (f x) z ≡ f (turn x y z)
unfolding turn
update-turn f x y z = elim (Bool-cases (y == z)) [
  | inl same ↦ rw same refl
  | inr off ↦ elim (Bool-cases (x == z)) [
    | inl same ↦ rw (off, same) refl
    | inr off' ↦ rw (off, off') refl
  ]
]

module _ {D : Type 0} where
  pub assign_value-placed :
      (s : Anys D) (x : ℕ) (d : D) → Owned s → assign_value s x d ≡ some (placed (cut s x) x d)
  unfolding assign_value alloc delete_content
  assign_value-placed s x d o = elim (Option-cases (s.content x)) [
    | inl empty ↦ rw (empty, update-update s.content x none (some s.heap.next)) refl
    | inr (p, e) ↦
        let (old, c) = o.live x p e in
        let other : (s.heap.next == p) ≡ false = ground (arith, o.fresh p) in
        rw
          (
            e,
            other,
            c,
            update-update s.content x none (some s.heap.next),
            update_comm s.heap.cell s.heap.next p (some d) none (λ q. ground arith),
          )
          refl
  ]

  pub assign_empty : (s : Anys D) (x y : ℕ) → s.content y ≡ none → assign s x y ≡ destroy s x
  unfolding assign clone_content destroy
  assign_empty s x y e = rw e refl

  pub assign_full :
      (s : Anys D) (x y p : ℕ) (d : D)
      → s.content y ≡ some p
      → s.heap.cell p ≡ some d
      → assign s x y ≡ assign_value s x d
  unfolding assign clone_content assign_value
  assign_full s x y p d e c = rw (e, c) refl

  pub swap-value :
      (s : Anys D) (x y : ℕ)
      → value (swap s x y) ≡ update (update (value s) x (value s y)) y (value s x)
  unfolding swap
  swap-value s x y = fun_ext (λ z.
      ap (λ o. o >>= s.heap.cell) (update-turn s.content x y z) ∙ sym (update-turn (value s) x y z))

  pub swap-Owned : (s : Anys D) (x y : ℕ) → Owned s → Owned (swap s x y)
  unfolding swap
  swap-Owned s x y o = record {
    live = λ z p e. o.live (turn x y z) p (sym (update-turn s.content x y z) ∙ e);
    fresh = o.fresh;
    apart = λ z w p e f.
        sym (turn_twice x y z)
        ∙ ap (turn x y) (
            o.apart (turn x y z) (turn x y w) p (sym (update-turn s.content x y z) ∙ e)
              (sym (update-turn s.content x y w) ∙ f))
        ∙ turn_twice x y w;
    owned = λ p d c.
        let (z, e) = o.owned p d c in
        (turn x y z, update-turn s.content x y (turn x y z) ∙ ap s.content (turn_twice x y z) ∙ e);
  }

  -- The value in a holder is written over.
  abbrev pub written : Anys D → ℕ → D → Anys D
  written s p d = record s { heap = record s.heap { cell = update s.heap.cell p (some d) } }

  pub written-Owned :
      (s : Anys D) (x p : ℕ) (d e : D)
      → Owned s
      → s.content x ≡ some p
      → s.heap.cell p ≡ some e
      → Owned (written s p d)
  written-Owned s x p d e o h c = record {
    live = λ y q f. elim (Bool-cases (p == q)) [
      | inl same ↦ (d, rw same refl)
      | inr off ↦ let (d', c') = o.live y q f in (d', rw off c')
    ];
    fresh = λ q l. ground (arith, o.fresh q);
    apart = o.apart;
    owned = λ q d' f. elim (Bool-cases (p == q)) [
      | inl same ↦ (x, rw (← (==_iff p q).0 same) h)
      | inr off ↦ o.owned q d' (rw off at f)
    ];
  }

  pub written-value :
      (s : Anys D) (x p : ℕ) (d : D)
      → Owned s
      → s.content x ≡ some p
      → value (written s p d) ≡ update (value s) x (some d)
  written-value s x p d o h = fun_ext (λ y. elim (Bool-cases (x == y)) [
    | inl same ↦ ground arith
    | inr off ↦ elim (Option-cases (s.content y)) [
      | inl empty ↦ rw (off, empty) refl
      | inr (q, e) ↦
          let apart : (p == q) ≡ false = ground (arith, o.apart x y p h) in
          rw (off, e) (rw apart refl)
    ]
  ])
