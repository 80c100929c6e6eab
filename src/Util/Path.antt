-- ===== src/Util/Path.antt =====
-- Uitl::VaildPath of Http/Http.hpp: the check that a request path does not leave the web root.
-- `level` is never below 0 while the loop goes on, so it is a natural number.
pub mod Depth
mod Tests
use high_concurrency_server.Common.{
  ℕ, zero, suc, ◌+◌, ◌-◌, Bool, true, false, List, [], ◌∷◌, Option, some, none, Bytes, bytes_eq,
  ◌==◌, if◌then◌else◌, ◌>>=◌,
}
use high_concurrency_server.Util.Split.{split}

-- ".."
abbrev pub dot_dot : Bytes
dot_dot = b'.' ∷ b'.' ∷ []

unfoldable pub check_levels : List Bytes → ℕ → Bool
check_levels [] level = true
check_levels (p ∷ v) level =
    let up = check_levels v (level - 1) in
    let down = check_levels v (level + 1) in
    if bytes_eq p dot_dot then (if level == 0 then false else up) else down

unfoldable pub vaild_path : Bytes → Option Bool
unfolding split check_levels
vaild_path path = do v ← split path (b'/' ∷ []) []; some (check_levels v 0)
