-- ===== src/Util/Path/Depth.antt =====
-- What `VaildPath` promises about the file that a path names.
use high_concurrency_server.Common.{
  ◌≡◌, refl, ap, Bool, true, false, Option, some, none, List, [], ◌∷◌, Bytes, length, bytes_eq,
  if◌then◌else◌, arith, All,
}
use high_concurrency_server.Util.Split.Laws.{fields, split-fields}
use high_concurrency_server.Util.Path.{dot_dot, check_levels, vaild_path}

-- "."
abbrev pub dot : Bytes
dot = b'.' ∷ []

-- The directories that the file system walks through, innermost first: `.` stays, `..` leaves the
-- innermost one, and at the root there is none to leave.
unfoldable pub walk : List Bytes → List Bytes → Option (List Bytes)
walk [] dirs = some dirs
walk (p ∷ v) [] =
    let stay = walk v [] in
    let down = walk v (p ∷ []) in
    if bytes_eq p dot_dot then none else if bytes_eq p dot then stay else down
walk (p ∷ v) (d ∷ dirs) =
    let up = walk v dirs in
    let stay = walk v (d ∷ dirs) in
    let down = walk v (p ∷ d ∷ dirs) in
    if bytes_eq p dot_dot then up else if bytes_eq p dot then stay else down

abbrev pub is_some : Option (List Bytes) → Bool
is_some none = false
is_some (some dirs) = true

abbrev pub NoDot : List Bytes → Type 0
NoDot = All (λ p. bytes_eq p dot ≡ false)

levels-walk : (v dirs : List Bytes) → NoDot v → check_levels v (length dirs) ≡ is_some (walk v dirs)
unfolding check_levels walk
levels-walk [] dirs h = refl
levels-walk (p ∷ v) [] h = ground (arith, levels-walk v (p ∷ []) h.1)
levels-walk (p ∷ v) (d ∷ dirs) h =
    ground (arith, levels-walk v dirs h.1, levels-walk v (p ∷ d ∷ dirs) h.1)

-- On a path with no `.` segment, `VaildPath` accepts exactly the paths on which the file system,
-- starting at the web root, never goes above it.
pub vaild_path-walk :
    (path : Bytes)
    → NoDot (fields b'/' path)
    → vaild_path path ≡ some (is_some (walk (fields b'/' path) []))
unfolding vaild_path
vaild_path-walk path h =
    rw (split-fields path b'/' []) (ap some (levels-walk (fields b'/' path) [] h))

-- A `.` segment is counted as a directory: with one in front, `..` passes the check at the root.
-- Whatever follows, the path is accepted as if the rest started at the root, although the file
-- system is by then above it.
pub vaild_path-dot_escapes :
    (path : Bytes) (v : List Bytes)
    → fields b'/' path ≡ dot ∷ dot_dot ∷ v
    → (vaild_path path ≡ some (check_levels v 0)) × (walk (fields b'/' path) [] ≡ none)
unfolding vaild_path check_levels walk
vaild_path-dot_escapes path v e = (rw (split-fields path b'/' [], e), rw e)
