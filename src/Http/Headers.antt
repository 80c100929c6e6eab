-- ===== src/Http/Headers.antt =====
-- The `unordered_map<string, string>` of headers and of query parameters in Http/Http.hpp, as an
-- association list with one entry for a key. `insert` leaves a key that is there alone.
use high_concurrency_server.Common.{
  ◌≡◌, Bool, true, false, Option, some, none, List, [], ◌∷◌, Bytes, bytes_eq, bytes_eq_refl,
  if◌then◌else◌, inl, inr, Bool-cases,
}

abbrev pub Headers : Type 0
Headers = List (Bytes × Bytes)

-- `_headers.find(key)`
unfoldable pub find : Headers → Bytes → Option Bytes
find [] key = none
find ((k, v) ∷ m) key = if bytes_eq k key then some v else find m key

-- `_headers.insert(std::make_pair(key, val))`
unfoldable pub insert : Headers → Bytes → Bytes → Headers
insert [] key val = (key, val) ∷ []
insert ((k, v) ∷ m) key val = if bytes_eq k key then (k, v) ∷ m else (k, v) ∷ insert m key val

-- `HasHeader`, `HasParams`
unfoldable pub has : Headers → Bytes → Bool
unfolding find
has m key = elim (find m key) [ none ↦ false | some v ↦ true ]

-- `GetHeader`, `GetParams`: the empty string for a key that is not there.
unfoldable pub get : Headers → Bytes → Bytes
unfolding find
get m key = elim (find m key) [ none ↦ [] | some v ↦ v ]

-- The entry of `key` after an insertion: the old one if there is one.
abbrev pub first_of_two : Option Bytes → Bytes → Option Bytes
first_of_two none val = some val
first_of_two (some v) val = some v

pub find-insert_self :
    (m : Headers) (key val : Bytes) → find (insert m key val) key ≡ first_of_two (find m key) val
unfolding find insert
find-insert_self [] key val = rw (bytes_eq_refl key)
find-insert_self ((k, v) ∷ m) key val = elim (Bool-cases (bytes_eq k key)) [
  | inl same ↦ rw (same, same)
  | inr other ↦ rw (other, other) (find-insert_self m key val)
]
