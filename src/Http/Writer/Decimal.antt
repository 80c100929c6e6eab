-- ===== src/Http/Writer/Decimal.antt =====
-- `std::to_string` and `std::stol` on numbers.
use high_concurrency_server.Common.{
  ℕ, zero, suc, ◌+◌, ◌-◌, ◌*◌, ◌/◌, ◌%◌, ◌^◌, ◌≤◌, ◌<◌, ◌≡◌, ◌∙◌, refl, sym, ap, true, false, some,
  [], ◌∷◌, Bytes, ltb, leb, le→leb, ltb→lt, ltb_false→le, ◌==◌, inl, inr, Bool-cases, arith,
}
use high_concurrency_server.Http.Request.{digits, stol, stol_sign, stol_digits, is_digit, is_space}
use high_concurrency_server.Http.Writer.{decimal, to_string}

-- A digit in front of `s`.
digit_step :
    (d : ℕ) (s : Bytes) (m k : ℕ) → d < 10 → m * 10 + d ≡ k → digits ((b'0' + d) ∷ s) m ≡ digits s k
unfolding digits
digit_step d s m k h e =
    rw (le→leb b'0' (b'0' + d) (omega arith), le→leb (b'0' + d) b'9' (omega arith))
      (ap (λ t. digits s t) (omega arith))

-- The digits in front of `s` are read back, into what is read from `s` on.
digits-decimal : (fuel n : ℕ) (s : Bytes) → n < fuel → digits (decimal fuel n s) 0 ≡ digits s n
unfolding decimal
digits-decimal zero n s h = absurd (omega arith)
digits-decimal (suc fuel) n s h = elim (Bool-cases (ltb n 10)) [
  | inl small ↦ rw small (digit_step n s 0 n (ltb→lt n 10 small) (omega arith))
  | inr large ↦
      let big : 10 ≤ n = ltb_false→le n 10 large in
      rw large (
        digits-decimal fuel (n / 10) ((b'0' + n % 10) ∷ s) (omega arith)
        ∙ digit_step (n % 10) s (n / 10) n (omega arith) (omega arith))
]

-- The number begins with a digit.
decimal-head :
    (fuel n : ℕ) (s : Bytes)
    → n < fuel
    → (d : ℕ) × (t : Bytes) × (decimal fuel n s ≡ (b'0' + d) ∷ t) × (d < 10)
unfolding decimal
decimal-head zero n s h = absurd (omega arith)
decimal-head (suc fuel) n s h = elim (Bool-cases (ltb n 10)) [
  | inl small ↦ (n, s, rw small, ltb→lt n 10 small)
  | inr large ↦
      let big : 10 ≤ n = ltb_false→le n 10 large in
      let (d, t, e, l) = decimal-head fuel (n / 10) ((b'0' + n % 10) ∷ s) (omega arith) in
      (d, t, rw large e, l)
]

-- `stol` on a text that begins with a digit reads its digits.
stol-digit :
    (d : ℕ) (t : Bytes)
    → d < 10
    → digits ((b'0' + d) ∷ t) 0 ≤ 2 ^ 63 - 1
    → stol ((b'0' + d) ∷ t) ≡ some (digits ((b'0' + d) ∷ t) 0)
unfolding stol stol_sign stol_digits
stol-digit d t h l = rw (space, minus, plus, digit, fits)
  where
    space : is_space (b'0' + d) ≡ false
    space = ground arith

    minus : ((b'0' + d) == b'-') ≡ false
    minus = ground arith

    plus : ((b'0' + d) == b'+') ≡ false
    plus = ground arith

    digit : is_digit (b'0' + d) ≡ true
    digit = ground arith

    opened : digits ((b'0' + d) ∷ t) 0 ≡ digits t (0 + ((b'0' + d) - b'0'))
    opened = unfold digits in rw digit

    fits : leb (digits t (0 + ((b'0' + d) - b'0'))) (2 ^ 63 - 1) ≡ true
    fits = le→leb _ _ (omega (arith, opened))

-- `std::stol` reads back what `std::to_string` writes of a number below 2 ^ 63.
pub stol-to_string : (n : ℕ) → n < 2 ^ 63 → stol (to_string n) ≡ some n
unfolding to_string
stol-to_string n h =
    let (d, t, e, l) = decimal-head (suc n) n [] (omega arith) in
    let value : digits ((b'0' + d) ∷ t) 0 ≡ n =
      ap (λ s. digits s 0) (sym e)
      ∙ digits-decimal (suc n) n [] (omega arith)
      ∙ unfold digits in refl in
    rw e (stol-digit d t l (omega (arith, value)) ∙ ap some value)
