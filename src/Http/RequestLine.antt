-- ===== src/Http/RequestLine.antt =====
-- The regular expression of HttpContent::ParseHttpLine in Http/Http.hpp, as the matcher that it
-- stands for:
--   (GET|POST|HEAD|DELETE|PUT)\s+(\S+?)(?:\?(\S*))?\s+(HTTP/1\.[01])(?:\n|\r\n)?     (icase)
-- No method is a prefix of another and `\S` excludes `\s`, so each part matches in one way: white
-- space and tokens are maximal runs, and the lazy `\S+?` ends at the first `?` behind its first
-- byte.
pub mod Laws
mod Tests
use high_concurrency_server.Common.{
  ℕ, ◌-◌, Bool, true, false, ◌&&◌, ◌||◌, Option, some, none, List, [], ◌∷◌, ◌++◌, Bytes, codes, leb,
  ◌==◌, bytes_eq, if◌then◌else◌, ◌>>=◌,
}
use high_concurrency_server.Http.Request.{is_space}

-- The groups of the match.
pub record RequestLine : Type 0 where
  pub method : Bytes
  pub path : Bytes
  pub search : Bytes
  pub version : Bytes

-- `toupper` of the C locale
abbrev pub to_upper : ℕ → ℕ
to_upper c = if leb b'a' c && leb c b'z' then c - 32 else c

-- A literal of the expression, in any case: what it matched, and the rest.
unfoldable pub literal : Bytes → Bytes → Option (Bytes × Bytes)
literal [] s = some ([], s)
literal (p ∷ ps) [] = none
literal (p ∷ ps) (c ∷ s) =
    if to_upper c == p then (literal ps s >>= λ r. some (c ∷ r.0, r.1)) else none

-- The first alternative that matches.
unfoldable pub any_literal : List Bytes → Bytes → Option (Bytes × Bytes)
unfolding literal
any_literal [] s = none
any_literal (p ∷ ps) s = elim (literal p s) [ none ↦ any_literal ps s | some r ↦ some r ]

abbrev pub methods : List Bytes
methods = codes "GET" ∷ codes "POST" ∷ codes "HEAD" ∷ codes "DELETE" ∷ codes "PUT" ∷ []

-- `\s*`
unfoldable pub skip_space : Bytes → Bytes
skip_space [] = []
skip_space (c ∷ s) = let rest = skip_space s in if is_space c then rest else c ∷ s

-- `\s+`
unfoldable pub spaces : Bytes → Option Bytes
unfolding skip_space
spaces [] = none
spaces (c ∷ s) = if is_space c then some (skip_space s) else none

-- `\S*`, and the rest.
unfoldable pub token : Bytes → Bytes × Bytes
token [] = ([], [])
token (c ∷ s) = let (t, rest) = token s in if is_space c then ([], c ∷ s) else (c ∷ t, rest)

-- The text before the first `?`, and the text behind it; without one, everything and nothing.
unfoldable pub cut_query : Bytes → Bytes × Bytes
cut_query [] = ([], [])
cut_query (c ∷ s) = let (p, q) = cut_query s in if c == b'?' then ([], s) else (c ∷ p, q)

-- `(\S+?)(?:\?(\S*))?` on a token: the first byte always belongs to the path.
unfoldable pub target : Bytes → Option (Bytes × Bytes)
unfolding cut_query
target [] = none
target (c ∷ s) = let (p, q) = cut_query s in some (c ∷ p, q)

-- `HTTP/1\.[01]`
unfoldable pub minor : Bytes → Option (Bytes × Bytes)
minor [] = none
minor (c ∷ s) = if (c == b'0') || (c == b'1') then some (c ∷ [], s) else none

unfoldable pub version : Bytes → Option (Bytes × Bytes)
unfolding literal minor
version s = do
  (major, s') ← literal (codes "HTTP/1.") s
  (digit, s'') ← minor s'
  some (major ++ digit, s'')

-- `(?:\n|\r\n)?` and the end of the text.
unfoldable pub is_line_end : Bytes → Bool
is_line_end s = bytes_eq s [] || (bytes_eq s (10 ∷ []) || bytes_eq s (13 ∷ 10 ∷ []))

unfoldable pub match_line : Bytes → Option RequestLine
match_line line = do
  (m, s1) ← any_literal methods line
  s2 ← spaces s1
  let (t, s3) = token s2
  (p, q) ← target t
  s4 ← spaces s3
  (v, s5) ← version s4
  if is_line_end s5 then some (record { method = m; path = p; search = q; version = v }) else none
