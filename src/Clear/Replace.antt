-- ===== src/Clear/Replace.antt =====
-- `replace_all` against a scanner that reads the input byte by byte.
use high_concurrency_server.Common.{
  ℕ, zero, suc, ◌+◌, ◌-◌, ◌<◌, ◌≡◌, ◌≢◌, ◌∙◌, refl, sym, ap, true, false, some, none, [], ◌∷◌, ◌++◌,
  append_assoc, Bytes, length, take, drop, if◌then◌else◌, arith, inl, inr, Bool-cases, Option-cases,
  length-drop, some-cancel,
}
use high_concurrency_server.Util.Split.{find, has_prefix}
use high_concurrency_server.Clear.{replace_loop, replace_all}

-- The input with `to` for each `from`, from left to right; `skip` bytes are still to be left out.
unfoldable pub scan : Bytes → Bytes → ℕ → Bytes → Bytes
scan from to skip [] = []
scan from to (suc k) (x ∷ s) = scan from to k s
scan from to zero (x ∷ s) =
    let hit = to ++ scan from to (length from - 1) s in
    let miss = x ∷ scan from to 0 s in if has_prefix from (x ∷ s) then hit else miss

module _ (c : ℕ) (f to : Bytes) where
  scan_skip : (k : ℕ) (s : Bytes) → scan (c ∷ f) to k s ≡ scan (c ∷ f) to 0 (drop k s)
  unfolding scan
  scan_skip zero s = refl
  scan_skip (suc k) [] = refl
  scan_skip (suc k) (x ∷ s) = scan_skip k s

  -- Behind a hit.
  scan_hit :
      (x : ℕ) (s : Bytes)
      → has_prefix (c ∷ f) (x ∷ s) ≡ true
      → scan (c ∷ f) to 0 (x ∷ s) ≡ to ++ scan (c ∷ f) to 0 (drop (0 + length (c ∷ f)) (x ∷ s))
  unfolding scan
  scan_hit x s hit =
      let size : suc (length f) - 1 ≡ length f = omega arith in
      let all : 0 + suc (length f) ≡ suc (length f) = omega arith in
      rw (hit, size, all) (ap (λ t. to ++ t) (scan_skip (length f) s))

  scan_miss :
      (x : ℕ) (s : Bytes)
      → has_prefix (c ∷ f) (x ∷ s) ≡ false
      → scan (c ∷ f) to 0 (x ∷ s) ≡ x ∷ scan (c ∷ f) to 0 s
  unfolding scan
  scan_miss x s miss = rw miss refl

  scan-none : (s : Bytes) → find (c ∷ f) s ≡ none → scan (c ∷ f) to 0 s ≡ s
  unfolding find
  scan-none [] h = unfold scan in refl
  scan-none (x ∷ s) h = elim (Bool-cases (has_prefix (c ∷ f) (x ∷ s))) [
    | inl hit ↦ absurd (let q : some 0 ≡ none = rw hit at h in cc)
    | inr miss ↦ elim (Option-cases (find (c ∷ f) s)) [
      | inl nothing ↦ scan_miss x s miss ∙ ap (λ t. x ∷ t) (scan-none s nothing)
      | inr (n, there) ↦ absurd (let q : some (suc n) ≡ none = rw (miss, there) at h in cc)
    ]
  ]

  scan-some :
      (s : Bytes) (n : ℕ)
      → find (c ∷ f) s ≡ some n
      → (scan (c ∷ f) to 0 s ≡ take n s ++ (to ++ scan (c ∷ f) to 0 (drop (n + length (c ∷ f)) s)))
        × (n < length s)
  unfolding find
  scan-some [] n h = absurd cc
  scan-some (x ∷ s) zero h = elim (Bool-cases (has_prefix (c ∷ f) (x ∷ s))) [
    | inl hit ↦ (scan_hit x s hit, omega arith)
    | inr miss ↦ elim (Option-cases (find (c ∷ f) s)) [
      | inl nothing ↦ absurd (let q : none ≡ some 0 = rw (miss, nothing) at h in cc)
      | inr (m, there) ↦ absurd (let q = some-cancel (rw (miss, there) at h) in omega arith)
    ]
  ]
  scan-some (x ∷ s) (suc n) h = elim (Bool-cases (has_prefix (c ∷ f) (x ∷ s))) [
    | inl hit ↦ absurd (let q = some-cancel (rw hit at h) in omega arith)
    | inr miss ↦ elim (Option-cases (find (c ∷ f) s)) [
      | inl nothing ↦ absurd (let q : none ≡ some (suc n) = rw (miss, nothing) at h in cc)
      | inr (m, there) ↦
          let same : m ≡ n = (let q = some-cancel (rw (miss, there) at h) in omega arith) in
          let (e, l) = scan-some s n (there ∙ ap some same) in
          let far : suc n + suc (length f) ≡ suc (n + suc (length f)) = omega arith in
          (scan_miss x s miss ∙ ap (λ t. x ∷ t) e ∙ rw far refl, omega (arith, l))
    ]
  ]

  replace_loop-scan :
      (fuel : ℕ) (s out : Bytes)
      → length s < fuel
      → replace_loop fuel (c ∷ f) to s out ≡ some (out ++ scan (c ∷ f) to 0 s)
  unfolding replace_loop
  replace_loop-scan zero s out h = absurd (omega arith)
  replace_loop-scan (suc fuel) s out h = elim (Option-cases (find (c ∷ f) s)) [
    | inl nothing ↦
        rw (nothing, replace_loop) (ap (λ t. some (out ++ t)) (sym (scan-none s nothing)))
    | inr (n, there) ↦
        let (e, l) = scan-some s n there in
        let shorter = length-drop (n + suc (length f)) s in
        rw (there, replace_loop)
          (replace_loop-scan fuel (drop (n + suc (length f)) s) (out ++ (take n s ++ to))
              (omega (arith, l, shorter))
            ∙ ap some (
                append_assoc out (take n s ++ to) _
                ∙ ap (λ t. out ++ t) (append_assoc (take n s) to _ ∙ sym e)))
  ]

-- `replace_all` ends for every `from` that is not empty, and returns the input with `to` for every
-- `from` that a scan from left to right meets, each scan going on behind the last one.
pub replace_all-scan :
    (input from to : Bytes) → from ≢ [] → replace_all input from to ≡ some (scan from to 0 input)
unfolding replace_all
replace_all-scan input [] to h = absurd (h refl)
replace_all-scan input (c ∷ f) to h =
    replace_loop-scan c f to (suc (length input)) input [] (omega arith)
