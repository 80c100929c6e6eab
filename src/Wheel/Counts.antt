-- ===== src/Wheel/Counts.antt =====
-- Counting references in the slots of the wheel.
use high_concurrency_server.Common.{
  ℕ, zero, suc, ◌+◌, ◌≤◌, ◌<◌, ◌≡◌, ◌≢◌, refl, ap, List, [], ◌∷◌, ◌++◌, length, set, arith, ◌==◌,
  if◌then◌else◌,
}
use high_concurrency_server.Wheel.{count, use_count, slot}

pub count-append : (x : ℕ) (xs ys : List ℕ) → count x (xs ++ ys) ≡ count x xs + count x ys
unfolding count
count-append x [] ys = omega arith
count-append x (y ∷ xs) ys = omega (arith, count-append x xs ys)

pub count_one : (x y : ℕ) → count x (y ∷ []) ≡ (if y == x then 1 else 0)
unfolding count
count_one x y = omega arith

pub use_count-set :
    (x : ℕ) (ws : List (List ℕ)) (i : ℕ) (s : List ℕ)
    → i < length ws
    → use_count x (set ws i s) + count x (slot ws i) ≡ use_count x ws + count x s
unfolding use_count slot
use_count-set x [] i s h = absurd (omega arith)
use_count-set x (w ∷ ws) zero s h = omega arith
use_count-set x (w ∷ ws) (suc i) s h = omega (arith, use_count-set x ws i s (omega arith))

pub count-le-use_count : (x : ℕ) (ws : List (List ℕ)) (i : ℕ) → count x (slot ws i) ≤ use_count x ws
unfolding use_count slot count
count-le-use_count x [] i = omega arith
count-le-use_count x (w ∷ ws) zero = omega arith
count-le-use_count x (w ∷ ws) (suc i) = omega (arith, count-le-use_count x ws i)

pub count_two_slots :
    (x : ℕ) (ws : List (List ℕ)) (i j : ℕ)
    → i ≢ j
    → count x (slot ws i) + count x (slot ws j) ≤ use_count x ws
unfolding use_count slot count
count_two_slots x [] i j h = omega arith
count_two_slots x (w ∷ ws) zero zero h = absurd (h refl)
count_two_slots x (w ∷ ws) zero (suc j) h = omega (arith, count-le-use_count x ws j)
count_two_slots x (w ∷ ws) (suc i) zero h = omega (arith, count-le-use_count x ws i)
count_two_slots x (w ∷ ws) (suc i) (suc j) h =
    omega (arith, count_two_slots x ws i j (λ e. h (ap suc e)))

pub slot-set_self :
    (ws : List (List ℕ)) (i : ℕ) (s : List ℕ) → i < length ws → slot (set ws i s) i ≡ s
unfolding slot
slot-set_self [] i s h = absurd (omega arith)
slot-set_self (w ∷ ws) zero s h = refl
slot-set_self (w ∷ ws) (suc i) s h = slot-set_self ws i s (omega arith)

pub slot-set_ne :
    (ws : List (List ℕ)) (i j : ℕ) (s : List ℕ) → i ≢ j → slot (set ws i s) j ≡ slot ws j
unfolding slot
slot-set_ne [] i j s h = refl
slot-set_ne (w ∷ ws) zero zero s h = absurd (h refl)
slot-set_ne (w ∷ ws) zero (suc j) s h = refl
slot-set_ne (w ∷ ws) (suc i) zero s h = refl
slot-set_ne (w ∷ ws) (suc i) (suc j) s h = slot-set_ne ws i j s (λ e. h (ap suc e))

pub set-set : (ws : List (List ℕ)) (i : ℕ) (s t : List ℕ) → set (set ws i s) i t ≡ set ws i t
set-set [] i s t = refl
set-set (w ∷ ws) zero s t = refl
set-set (w ∷ ws) (suc i) s t = ap (λ r. w ∷ r) (set-set ws i s t)

pub set-slot : (ws : List (List ℕ)) (i : ℕ) → set ws i (slot ws i) ≡ ws
unfolding slot
set-slot [] i = refl
set-slot (w ∷ ws) zero = refl
set-slot (w ∷ ws) (suc i) = ap (λ r. w ∷ r) (set-slot ws i)
