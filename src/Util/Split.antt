-- ===== src/Util/Split.antt =====
-- Uitl::split of Http/Http.hpp. The position `offset` is kept as the rest of the string from there
-- on; the pieces are returned instead of pushed to `*container`, whose size is their number.
pub mod Laws
mod Tests
use high_concurrency_server.Common.{
  ℕ, zero, suc, ◌+◌, Bool, true, false, ◌&&◌, Option, some, none, List, [], ◌∷◌, ◌++◌, Bytes,
  length, take, drop, ◌==◌, if◌then◌else◌, ◌>>=◌,
}

-- Whether the string begins with `sep`.
abbrev pub has_prefix : Bytes → Bytes → Bool
has_prefix [] s = true
has_prefix (c ∷ sep) [] = false
has_prefix (c ∷ sep) (x ∷ s) = (c == x) && has_prefix sep s

-- `src.find(sep, offset)`, counted from `offset`.
unfoldable pub find : Bytes → Bytes → Option ℕ
find sep [] = if has_prefix sep [] then some 0 else none
find sep (x ∷ s) = if has_prefix sep (x ∷ s) then some 0 else (find sep s >>= λ n. some (suc n))

-- The loop; the fuel bounds its rounds.

unfoldable pub split_loop : ℕ → Bytes → Bytes → List Bytes → Option (List Bytes)
split_loop zero sep rest container = none
split_loop (suc fuel) sep [] container = some container
split_loop (suc fuel) sep (x ∷ rest) container = elim (find sep (x ∷ rest)) [
  | none ↦ some (container ++ (x ∷ rest) ∷ [])
  | some zero ↦ split_loop fuel sep (drop (length sep) (x ∷ rest)) container
  | some (suc n) ↦
      split_loop fuel sep (drop (suc n + length sep) (x ∷ rest))
        (container ++ take (suc n) (x ∷ rest) ∷ [])
]

-- An empty separator splits nothing.
unfoldable pub split : Bytes → Bytes → List Bytes → Option (List Bytes)
unfolding split_loop find
split src [] container = some container
split src (c ∷ sep) container = split_loop (suc (length src)) (c ∷ sep) src container
