-- ===== src/Any/Owner.antt =====
-- Who owns the holders: each has one Any object, and what the operations leave.
use high_concurrency_server.Common.{
  ℕ, ◌≤◌, ◌≡◌, ◌≢◌, ◌∙◌, refl, sym, ap, false, Option, none, some, ◌==◌, ◌>>=◌, arith, inl, inr,
  Bool-cases, Option-cases, ◌⊎◌, ==_iff,
}
use mathlib.Core.Path.{fun_ext}
use high_concurrency_server.Any.{Anys, update, alloc, delete_content, destroy}

module _ {D : Type 0} where
  -- The holder of each Any object is there, no two have the same one, and no holder is without one.
  pub record Owned (s : Anys D) : Type 0 where
    pub live : (x p : ℕ) → s.content x ≡ some p → (d : D) × (s.heap.cell p ≡ some d)
    pub fresh : (p : ℕ) → s.heap.next ≤ p → s.heap.cell p ≡ none
    pub apart : (x y p : ℕ) → s.content x ≡ some p → s.content y ≡ some p → x ≡ y
    pub owned : (p : ℕ) (d : D) → s.heap.cell p ≡ some d → (x : ℕ) × (s.content x ≡ some p)

  -- The value of each Any object.
  abbrev pub value : Anys D → ℕ → Option D
  value s x = s.content x >>= s.heap.cell

  -- The cells without the one of a pointer.
  abbrev pub without : Option ℕ → (ℕ → Option D) → ℕ → Option D
  without none cell = cell
  without (some p) cell = update cell p none

  -- What `x` holds is let go.
  abbrev pub cut : Anys D → ℕ → Anys D
  cut s x = record {
    heap = record s.heap { cell = without (s.content x) s.heap.cell };
    content = update s.content x none;
  }

  -- `x`, which holds nothing, gets a new holder.
  abbrev pub placed : Anys D → ℕ → D → Anys D
  placed s x d = record { heap = alloc s.heap d; content = update s.content x (some s.heap.next) }

  pub destroy-cut : (s : Anys D) (x : ℕ) → Owned s → destroy s x ≡ some (cut s x)
  unfolding destroy
  destroy-cut s x o = elim (Option-cases (s.content x)) [
    | inl empty ↦ rw (empty, delete_content)
    | inr (p, e) ↦ let (d, c) = o.live x p e in rw (e, delete_content, c)
  ]

  without-none :
      (o : Option ℕ) (cell : ℕ → Option D) (p : ℕ) → cell p ≡ none → without o cell p ≡ none
  without-none none cell p h = h
  without-none (some q) cell p h = ground arith

  without-some :
      (o : Option ℕ) (cell : ℕ → Option D) (p : ℕ) (d : D)
      → without o cell p ≡ some d
      → (cell p ≡ some d) × (o ≢ some p)
  without-some none cell p d h = (h, λ e. cc)
  without-some (some q) cell p d h = (ground arith, λ e. ground arith)

  without_other :
      (o : Option ℕ) (cell : ℕ → Option D) (p : ℕ) → o ≢ some p → without o cell p ≡ cell p
  without_other none cell p h = refl
  without_other (some q) cell p h = elim (Bool-cases (q == p)) [
    | inl same ↦ absurd (h (ground arith))
    | inr off ↦ rw off refl
  ]

  -- Another object has another holder.
  holds_other :
      (s : Anys D) (x y p : ℕ)
      → Owned s
      → (x == y) ≡ false
      → s.content y ≡ some p
      → s.content x ≢ some p
  holds_other s x y p o off e f = ground (arith, o.apart x y p f e)

  -- A holder of another object stays.
  kept_cell :
      (s : Anys D) (x y p : ℕ)
      → Owned s
      → (x == y) ≡ false
      → s.content y ≡ some p
      → without (s.content x) s.heap.cell p ≡ s.heap.cell p
  kept_cell s x y p o off e =
      without_other (s.content x) s.heap.cell p (holds_other s x y p o off e)

  cut_content :
      (s : Anys D) (x y p : ℕ)
      → (cut s x).content y ≡ some p
      → ((x == y) ≡ false) × (s.content y ≡ some p)
  cut_content s x y p e = elim (Bool-cases (x == y)) [
    | inl same ↦ absurd (let q : none ≡ some p = rw same at e in cc)
    | inr off ↦ (off, rw off at e)
  ]

  pub cut-value : (s : Anys D) (x : ℕ) → Owned s → value (cut s x) ≡ update (value s) x none
  cut-value s x o = fun_ext (λ y. elim (Bool-cases (x == y)) [
    | inl same ↦ rw same refl
    | inr off ↦ elim (Option-cases (s.content y)) [
      | inl empty ↦ rw (off, empty) refl
      | inr (p, e) ↦ rw (off, e) (kept_cell s x y p o off e)
    ]
  ])

  pub cut-Owned : (s : Anys D) (x : ℕ) → Owned s → Owned (cut s x)
  cut-Owned s x o = record {
    live = λ y p e.
        let (off, f) = cut_content s x y p e in
        let (d, c) = o.live y p f in (d, kept_cell s x y p o off f ∙ c);
    fresh = λ p h. without-none (s.content x) s.heap.cell p (o.fresh p h);
    apart = λ y z p e f. o.apart y z p (cut_content s x y p e).1 (cut_content s x z p f).1;
    owned = λ p d e.
        let (c, other) = without-some (s.content x) s.heap.cell p d e in
        let (y, f) = o.owned p d c in
        elim (Bool-cases (x == y)) [
          | inl same ↦ absurd (other (ap s.content ((==_iff x y).0 same) ∙ f))
          | inr off ↦ (y, rw off f)
        ];
  }

  -- In a new holder there is nothing old.
  new_cell : (s : Anys D) (y p : ℕ) → Owned s → s.content y ≡ some p → (s.heap.next == p) ≡ false
  new_cell s y p o e =
      let (d, c) = o.live y p e in
      elim (Bool-cases (s.heap.next == p)) [
        | inl same ↦ absurd (let q = o.fresh p (ground arith) in cc)
        | inr off ↦ off
      ]

  pub placed-value :
      (s : Anys D) (x : ℕ) (d : D) → Owned s → value (placed s x d) ≡ update (value s) x (some d)
  unfolding alloc
  placed-value s x d o = fun_ext (λ y. elim (Bool-cases (x == y)) [
    | inl same ↦ rw same (ground arith)
    | inr off ↦ elim (Option-cases (s.content y)) [
      | inl empty ↦ rw (off, empty) refl
      | inr (p, e) ↦ rw (off, e) (rw (new_cell s y p o e) refl)
    ]
  ])

  placed_content :
      (s : Anys D) (x y p : ℕ) (d : D)
      → (placed s x d).content y ≡ some p
      → ((x ≡ y) × (s.heap.next ≡ p)) ⊎ (((x == y) ≡ false) × (s.content y ≡ some p))
  placed_content s x y p d e = elim (Bool-cases (x == y)) [
    | inl same ↦ inl ((==_iff x y).0 same, let q : some s.heap.next ≡ some p = rw same at e in cc)
    | inr off ↦ inr (off, rw off at e)
  ]

  pub placed-Owned :
      (s : Anys D) (x : ℕ) (d : D) → Owned s → s.content x ≡ none → Owned (placed s x d)
  unfolding alloc
  placed-Owned s x d o e = record {
    live = λ y p f. elim (placed_content s x y p d f) [
      | inl (same, q) ↦ (d, ground arith)
      | inr (off, g) ↦ let (d', c) = o.live y p g in (d', rw (new_cell s y p o g) c)
    ];
    fresh = λ p h. ground (arith, o.fresh p);
    apart =
        λ y z p f g. placed_apart y z p (placed_content s x y p d f) (placed_content s x z p d g);
    owned = λ p d' c. elim (Bool-cases (s.heap.next == p)) [
      | inl same ↦ (x, ground arith)
      | inr off ↦
          let (y, g) = o.owned p d' (rw off at c) in
          let apart : (x == y) ≡ false = ground arith in (y, rw apart g)
    ];
  }
    where
      placed_apart :
          (y z p : ℕ)
          → ((x ≡ y) × (s.heap.next ≡ p)) ⊎ (((x == y) ≡ false) × (s.content y ≡ some p))
          → ((x ≡ z) × (s.heap.next ≡ p)) ⊎ (((x == z) ≡ false) × (s.content z ≡ some p))
          → y ≡ z
      placed_apart y z p (inl (a, b)) (inl (a', b')) = sym a ∙ a'
      placed_apart y z p (inl (a, b)) (inr (off, g)) =
          absurd (let q = new_cell s z p o g in ground arith)
      placed_apart y z p (inr (off, g)) (inl (a, b)) =
          absurd (let q = new_cell s y p o g in ground arith)
      placed_apart y z p (inr (_, g)) (inr (_, g')) = o.apart y z p g g'
