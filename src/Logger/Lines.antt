-- ===== src/Logger/Lines.antt =====
-- What a sequence of log statements leaves in the file.
use high_concurrency_server.Common.{
  ◌≡◌, ◌∙◌, refl, sym, ap, true, Option, some, List, [], ◌∷◌, ◌++◌, append_assoc, append-nil, Bytes,
  codes, ◌==◌, bytes_eq, if◌then◌else◌, ◌>>=◌, inl, inr, Bool-cases, Option-cases,
}
use high_concurrency_server.Http.Server.{back}
use high_concurrency_server.Logger.{
  Message, World, LogStrategy, file, head_info, add_pieces, with_slash, slash_if, sync_strategy,
  append_file, log,
}

back_slash : (s : Bytes) → back (s ++ codes "/") ≡ some b'/'
unfolding back
back_slash [] = refl
back_slash (c ∷ []) = refl
back_slash (c ∷ d ∷ s) = back_slash (d ∷ s)

with_slash-with_slash : (path : Bytes) → with_slash (with_slash path) ≡ with_slash path
unfolding with_slash
with_slash-with_slash path = elim (Option-cases (back path)) [
  | inl empty ↦ rw (empty, slash_if) (rw (empty, slash_if) refl)
  | inr (c, e) ↦ elim (Bool-cases (c == b'/')) [
    | inl slash ↦ rw (e, slash) (rw (e, slash) refl)
    | inr other ↦ rw (e, other) (rw (back_slash path) refl)
  ]
]

abbrev pub joined : List Bytes → Bytes
joined [] = []
joined (p ∷ ps) = p ++ joined ps

-- The line of a statement: the head, all pieces in order, and the end of the line.
abbrev pub line_of : Message → Bytes
line_of m = (head_info m ++ joined m.pieces) ++ codes "\n"

-- The lines of statements, one behind the other.
unfoldable pub lines : List Message → Bytes
lines [] = []
lines (m ∷ ms) = line_of m ++ lines ms

unfoldable pub log_all :
    Option LogStrategy → World → List Message → Option (Option LogStrategy × World)
log_all strategy w [] = some (strategy, w)
log_all strategy w (m ∷ ms) = do (s, w') ← log strategy w m; log_all s w' ms

add_pieces-joined :
    (loginfo : Bytes) (ps : List Bytes) → add_pieces loginfo ps ≡ loginfo ++ joined ps
unfolding add_pieces
add_pieces-joined loginfo [] = sym (append-nil loginfo)
add_pieces-joined loginfo (p ∷ ps) =
    add_pieces-joined (loginfo ++ p) ps ∙ append_assoc loginfo p (joined ps)

log-line_of :
    (name path : Bytes) (w : World) (m : Message)
    → w.opens (with_slash path ++ name) ≡ true
    → log (some (file name path)) w m
      ≡ some
          (some (file name (with_slash path)), append_file w (with_slash path ++ name) (line_of m))
unfolding log sync_strategy
log-line_of name path w m h = rw (h, add_pieces-joined (head_info m) m.pieces) refl

-- What a file has behind some statements.
abbrev pub grown : Bytes → Bytes → Bytes → Bytes → Bytes
grown filename f old more = if bytes_eq filename f then old ++ more else old

grown_twice :
    (filename f old a b : Bytes)
    → grown filename f (grown filename f old a) b ≡ grown filename f old (a ++ b)
grown_twice filename f old a b = elim (Bool-cases (bytes_eq filename f)) [
  | inl same ↦ rw same (append_assoc old a b)
  | inr other ↦ rw other refl
]

grown_nothing : (filename f old : Bytes) → old ≡ grown filename f old []
grown_nothing filename f old = elim (Bool-cases (bytes_eq filename f)) [
  | inl same ↦ rw same (sym (append-nil old))
  | inr other ↦ rw other refl
]

-- With the file strategy, and a file that opens, any number of log statements appends exactly their
-- lines, in order, to one file, whose name is the path, with a `/` behind it, and the name of the
-- strategy; no other file and nothing on the screen changes.
pub log_all-lines :
    (name path : Bytes) (w : World) (ms : List Message)
    → w.opens (with_slash path ++ name) ≡ true
    → (s : Option LogStrategy) × (w' : World) × (log_all (some (file name path)) w ms
        ≡ some (s, w'))
      × ((f : Bytes) → w'.files f ≡ grown (with_slash path ++ name) f (w.files f) (lines ms))
      × (w'.screen ≡ w.screen)
unfolding log_all lines
log_all-lines name path w [] h = (
  some (file name path),
  w,
  refl,
  λ f. grown_nothing (with_slash path ++ name) f (w.files f),
  refl,
)
log_all-lines name path w (m ∷ ms) h =
    let filename = with_slash path ++ name in
    let same : with_slash (with_slash path) ++ name ≡ filename =
      ap (λ p. p ++ name) (with_slash-with_slash path) in
    let w1 = append_file w filename (line_of m) in
    let (s, w', e, grows, screen) = log_all-lines name (with_slash path) w1 ms (rw same h) in
    (
      s,
      w',
      rw (log-line_of name path w m h) e,
      λ f.
          grows f
          ∙ ap (λ n. grown n f (grown filename f (w.files f) (line_of m)) (lines ms)) same
          ∙ grown_twice filename f (w.files f) (line_of m) (lines ms),
      screen,
    )
