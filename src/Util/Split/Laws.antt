-- ===== src/Util/Split/Laws.antt =====
-- `split` by one byte against a scanner that reads the string byte by byte: the loop ends, and its
-- pieces are the maximal non-empty runs without that byte.
use mathlib.Core.Path.{ap₂}
use high_concurrency_server.Common.{
  ℕ, zero, suc, ◌+◌, ◌<◌, ◌≡◌, refl, sym, ap, ◌∙◌, ◌⊎◌, inl, inr, some, none, List, [], ◌∷◌, ◌++◌,
  append_assoc, append-nil, Bytes, length, take, drop, ◌==◌, ==_refl, if◌then◌else◌, arith,
  Bool-cases, Lacks, length-append, drop-append_length, take-append_length,
}
use high_concurrency_server.Util.Split.{find, split_loop, split}

-- A run that is not empty is a piece.
abbrev pub piece : Bytes → List Bytes
piece [] = []
piece (x ∷ xs) = (x ∷ xs) ∷ []

-- The runs without `c`, the first of them begun with `run`.
unfoldable pub fields_from : ℕ → Bytes → Bytes → List Bytes
fields_from c run [] = piece run
fields_from c run (x ∷ s) =
    let cut = fields_from c [] s in
    let more = fields_from c (run ++ x ∷ []) s in if x == c then piece run ++ cut else more

unfoldable pub fields : ℕ → Bytes → List Bytes
unfolding fields_from
fields c s = fields_from c [] s

fields_from-Lacks : (c : ℕ) (run l : Bytes) → Lacks c l → fields_from c run l ≡ piece (run ++ l)
unfolding fields_from
fields_from-Lacks c run [] h = rw (append-nil run)
fields_from-Lacks c run (x ∷ l) h =
    ground (arith, fields_from-Lacks c (run ++ x ∷ []) l, append_assoc run (x ∷ []) l)

fields_from-cut :
    (c : ℕ) (run l r : Bytes)
    → Lacks c l
    → fields_from c run (l ++ c ∷ r) ≡ piece (run ++ l) ++ fields_from c [] r
unfolding fields_from
fields_from-cut c run [] r h = rw (append-nil run, ==_refl c)
fields_from-cut c run (x ∷ l) r h =
    ground (arith, fields_from-cut c (run ++ x ∷ []) l r, append_assoc run (x ∷ []) l)

-- Where the first `c` stands.
pub find_cases :
    (c : ℕ) (s : Bytes)
    → ((find (c ∷ []) s ≡ none) × Lacks c s)
      ⊎ ((l : Bytes) × (r : Bytes) × (s ≡ l ++ c ∷ r)
          × Lacks c l
          × (find (c ∷ []) s ≡ some (length l)))
unfolding find
find_cases c [] = inl (refl, tt)
find_cases c (x ∷ s) = elim (Bool-cases (c == x)) [
  | inl same ↦ inr ([], s, ground arith, tt, ground arith)
  | inr other ↦ elim (find_cases c s) [
    | inl (e, h) ↦ inl (ground arith, (ground arith, h))
    | inr (l, r, shape, h, e) ↦
        inr (x ∷ l, r, ap (λ t. x ∷ t) shape, (ground arith, h), ground arith)
  ]
]

cut_shorter : (l r : Bytes) (c : ℕ) (s : Bytes) → s ≡ l ++ c ∷ r → length r < length s
cut_shorter l r c s e = omega (arith, ap length e, length-append l (c ∷ r))

behind_cut : (l r : Bytes) (c : ℕ) (s : Bytes) → s ≡ l ++ c ∷ r → drop (length l + 1) s ≡ r
behind_cut l r c s e =
    rw (e, ← append_assoc l (c ∷ []) r)
      (drop-append_length (length l + 1) (l ++ c ∷ []) r (omega (arith, length-append l (c ∷ []))))

before_cut : (l r : Bytes) (c : ℕ) (s : Bytes) → s ≡ l ++ c ∷ r → take (length l) s ≡ l
before_cut l r c s e = rw e (take-append_length (length l) l (c ∷ r) refl)

module _ (c : ℕ) where
  round_none :
      (fuel : ℕ) (s : Bytes) (out : List Bytes)
      → find (c ∷ []) s ≡ none
      → Lacks c s
      → split_loop (suc fuel) (c ∷ []) s out ≡ some (out ++ fields c s)
  unfolding split_loop fields
  round_none fuel [] out e h = rw (append-nil out)
  round_none fuel (x ∷ s) out e h = rw (e, split_loop, fields_from-Lacks c [] (x ∷ s) h)

  round_some :
      (fuel : ℕ) (s l r : Bytes) (out : List Bytes)
      → find (c ∷ []) s ≡ some (length l)
      → s ≡ l ++ c ∷ r
      → split_loop (suc fuel) (c ∷ []) s out ≡ split_loop fuel (c ∷ []) r (out ++ piece l)
  unfolding split_loop
  round_some fuel [] [] r out e k = cc
  round_some fuel [] (y ∷ l) r out e k = cc
  round_some fuel (x ∷ s) [] r out e k =
      rw (e, split_loop)
        (rw (append-nil out)
          (let same : s ≡ r = cc in ap (λ t. split_loop fuel (c ∷ []) t out) same))
  round_some fuel (x ∷ s) (y ∷ l) r out e k =
      rw (e, split_loop)
        (ap₂ (λ t p. split_loop fuel (c ∷ []) t (out ++ p ∷ [])) (behind_cut (y ∷ l) r c (x ∷ s) k)
          (before_cut (y ∷ l) r c (x ∷ s) k))

  split_loop-fields :
      (fuel : ℕ) (s : Bytes) (out : List Bytes)
      → length s < fuel
      → split_loop fuel (c ∷ []) s out ≡ some (out ++ fields c s)
  split_loop-fields zero s out h = absurd (omega arith)
  split_loop-fields (suc fuel) s out h = elim (find_cases c s) [
    | inl (e, lacks) ↦ round_none fuel s out e lacks
    | inr (l, r, shape, lacks, e) ↦
        round_some fuel s l r out e shape
        ∙ split_loop-fields fuel r (out ++ piece l) (omega (arith, cut_shorter l r c s shape))
        ∙ ap some (
            append_assoc out (piece l) (fields c r)
            ∙ ap (λ t. out ++ t) (unfold fields in rw shape (sym (fields_from-cut c [] l r lacks))))
  ]

-- `split` by a one-byte separator returns, behind what the container held, the maximal non-empty
-- runs of bytes other than the separator, in order.
pub split-fields :
    (src : Bytes) (c : ℕ) (out : List Bytes) → split src (c ∷ []) out ≡ some (out ++ fields c src)
unfolding split
split-fields src c out = split_loop-fields c (suc (length src)) src out (omega arith)
