-- ===== src/Clear.antt =====
-- Http/Clear.cc, which replaces the domains in the text files of a site. The rest of a string behind
-- a position stands for the position. What the file system does is an argument: whether the copy is
-- made, the file opens for reading and for writing, and all is written.
pub mod Replace
pub mod Backup
mod Tests
use high_concurrency_server.Common.{
  ℕ, zero, suc, ◌+◌, Bool, true, false, not, ◌&&◌, ◌||◌, Option, some, none, List, [], ◌∷◌, ◌++◌,
  Bytes, codes, map, length, take, drop, ◌==◌, bytes_eq, if◌then◌else◌, ◌>>=◌,
}
use high_concurrency_server.Util.Split.{find}
use high_concurrency_server.Util.Mime.{to_lower}

unfoldable pub text_extensions : List Bytes
text_extensions = map codes (
    ".html" ∷ ".htm" ∷ ".xhtml" ∷ ".php" ∷ ".asp" ∷ ".jsp" ∷ ".css" ∷ ".js" ∷ ".mjs" ∷ ".json"
    ∷ ".xml" ∷ ".xsl" ∷ ".txt" ∷ ".md" ∷ ".svg" ∷ ".csv" ∷ ".rss" ∷ ".atom" ∷ [])

-- `text_extensions.find(ext) != text_extensions.end()`
unfoldable pub contains : List Bytes → Bytes → Bool
contains [] ext = false
contains (e ∷ es) ext = bytes_eq e ext || contains es ext

-- `ext` is `path.extension()`.
unfoldable pub is_text_file : Bytes → Bool
unfolding text_extensions contains
is_text_file ext = contains text_extensions (map to_lower ext)

-- The loop of `replace_all`; the fuel bounds its rounds.
unfoldable pub replace_loop : ℕ → Bytes → Bytes → Bytes → Bytes → Option Bytes
unfolding find
replace_loop zero from to rest result = none
replace_loop (suc fuel) from to rest result = elim (find from rest) [
  | none ↦ some (result ++ rest)
  | some n ↦ replace_loop fuel from to (drop (n + length from) rest) (result ++ (take n rest ++ to))
]

unfoldable pub replace_all : Bytes → Bytes → Bytes → Option Bytes
unfolding replace_loop
replace_all input [] to = some input
replace_all input (c ∷ from) to = replace_loop (suc (length input)) (c ∷ from) to input []

unfoldable pub replace_each : Bytes → List (Bytes × Bytes) → Option Bytes
unfolding replace_all
replace_each content [] = some content
replace_each content ((from, to) ∷ replacements) = do
  next ← replace_all content from to
  replace_each next replacements

-- A file, and its copy under the name with ".bak".
pub record TextFile : Type 0 where
  pub content : Bytes
  pub backup : Option Bytes

-- What the file system does: whether it copies, opens for reading and opens for writing, what a copy
-- that fails leaves under the name of the backup, and how many bytes a write that fails has written,
-- or `none` when all are.
pub record Answers : Type 0 where
  pub copies : Bool
  pub opens : Bool
  pub writable : Bool
  pub remains : Option Bytes
  pub short : Option ℕ

abbrev pub is_none : Option Bytes → Bool
is_none none = true
is_none (some b) = false

-- The first part of `process_file`: the file, and whether it goes on.
unfoldable pub back_up : Answers → Bool → TextFile → TextFile × Bool
back_up a backup f =
    if backup && is_none f.backup
    then (if a.copies
        then (record f { backup = some f.content }, true)
        else (record f { backup = a.remains }, false))
    else (f, true)

-- What `ofs.write` leaves in the file, which is empty when it is open.
unfoldable pub written : Answers → Bytes → Bytes
written a new_content = elim a.short [ none ↦ new_content | some n ↦ take n new_content ]

-- What is written, unless nothing has changed. The result does not tell whether `ofs.write` failed.
unfoldable pub write_back : Answers → TextFile → Bytes → TextFile × Bool
unfolding written
write_back a f new_content =
    if bytes_eq new_content f.content
    then (f, true)
    else if not a.writable
    then (f, false)
    else (record f { content = written a new_content }, true)

-- The rest of `process_file` behind the backup.
unfoldable pub rewrite : Answers → List (Bytes × Bytes) → TextFile × Bool → Option (TextFile × Bool)
unfolding replace_each write_back
rewrite a replacements (f, false) = some (f, false)
rewrite a replacements (f, true) =
    if not a.opens
    then some (f, false)
    else (do new_content ← replace_each f.content replacements; some (write_back a f new_content))

unfoldable pub process_file :
    Answers → List (Bytes × Bytes) → Bool → TextFile → Option (TextFile × Bool)
unfolding back_up rewrite
process_file a replacements backup f = rewrite a replacements (back_up a backup f)

-- The list of `main`.
unfoldable pub replacements : Bytes → List (Bytes × Bytes)
replacements new_domain =
    (codes "https://www.ymgal.games", new_domain)
    ∷ (codes "http://www.ymgal.games", new_domain)
    ∷ (codes "https://ymgal.games", new_domain)
    ∷ (codes "http://ymgal.games", new_domain)
    ∷ (
      codes "https://cdn.ymgal.games",
      if length new_domain == 0 then [] else new_domain ++ codes "/cdn",
    )
    ∷ []
