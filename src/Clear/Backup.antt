-- ===== src/Clear/Backup.antt =====
-- What `process_file` does to a file and to its backup.
use high_concurrency_server.Common.{
  ◌≡◌, ◌∙◌, ◌⊎◌, refl, sym, ap, Bool, true, false, none, some, List, [], ◌∷◌, Bytes, take, bytes_eq,
  if◌then◌else◌, inl, inr, Bool-cases,
}
use high_concurrency_server.Clear.{
  Answers, TextFile, is_none, replace_all, replace_each, back_up, write_back, written, rewrite,
  process_file,
}
use high_concurrency_server.Clear.Replace.{scan, replace_all-scan}

replace_all_total : (input from to : Bytes) → (out : Bytes) × (replace_all input from to ≡ some out)
replace_all_total input [] to = (input, unfold replace_all in refl)
replace_all_total input (c ∷ from) to =
    (scan (c ∷ from) to 0 input, replace_all-scan input (c ∷ from) to (λ e. cc))

replace_each_total :
    (content : Bytes) (replacements : List (Bytes × Bytes))
    → (out : Bytes) × (replace_each content replacements ≡ some out)
unfolding replace_each
replace_each_total content [] = (content, refl)
replace_each_total content ((from, to) ∷ replacements) =
    let (next, e) = replace_all_total content from to in
    let (out, r) = replace_each_total next replacements in (out, rw e r)

-- What becomes of a file: it keeps its content, or there is its backup, and the content is what the
-- write left of the one with all replacements.
abbrev pub Safe : Answers → List (Bytes × Bytes) → TextFile → TextFile → Bool → Type 0
Safe a replacements f f' r =
    (f'.content ≡ f.content)
    ⊎ ((f'.backup ≡ (if is_none f.backup then some f.content else f.backup))
        × ((out : Bytes) × (replace_each f.content replacements ≡ some out)
            × (f'.content ≡ (elim a.short [ none ↦ out | some n ↦ take n out ])))
        × (r ≡ true))

module _ (a : Answers) (replacements : List (Bytes × Bytes)) where
  rewrite-Safe :
      (f f1 : TextFile) (go : Bool)
      → f1.content ≡ f.content
      → (go ≡ true → f1.backup ≡ (if is_none f.backup then some f.content else f.backup))
      → (f' : TextFile) × (r : Bool) × (rewrite a replacements (f1, go) ≡ some (f', r))
        × Safe a replacements f f' r
  unfolding rewrite
  rewrite-Safe f f1 false same saved = (f1, false, refl, inl same)
  rewrite-Safe f f1 true same saved = elim (Bool-cases a.opens) [
    | inr shut ↦ (f1, false, rw shut refl, inl same)
    | inl opens ↦
        let (out, e) = replace_each_total f1.content replacements in
        elim (Bool-cases (bytes_eq out f1.content)) [
          | inl unchanged ↦ (f1, true, rw (opens, e, write_back, unchanged) refl, inl same)
          | inr changed ↦ elim (Bool-cases a.writable) [
            | inr locked ↦ (f1, false, rw (opens, e, write_back, changed, locked) refl, inl same)
            | inl writable ↦ (
              record f1 { content = written a out },
              true,
              rw (opens, e, write_back, changed, writable) refl,
              inr (
                saved refl,
                (out, ap (λ t. replace_each t replacements) (sym same) ∙ e, unfold written in refl),
                refl,
              ),
            )
          ]
        ]
  ]

  back_up_saves :
      (f : TextFile)
      → ((back_up a true f).0.content ≡ f.content)
        × ((back_up a true f).1 ≡ true
            → (back_up a true f).0.backup ≡ (if is_none f.backup then some f.content else f.backup))
  unfolding back_up
  back_up_saves f = elim (Bool-cases (is_none f.backup)) [
    | inl first ↦ elim (Bool-cases a.copies) [
      | inl copied ↦ rw (first, copied) (refl, λ e. refl)
      | inr failed ↦ rw (first, failed) (refl, λ e. cc)
    ]
    | inr again ↦ rw again (refl, λ e. refl)
  ]

  -- With the backup switched on `process_file` returns for every file, whether or not the copy is
  -- made, the file opens for reading and for writing, and the write succeeds. It leaves the content
  -- as it was, or it returns true and there is a backup: the one from before, whatever it holds, or
  -- else the original content. In this second case the content is the original with all
  -- replacements, in order, when the write succeeds, and the bytes written so far when it fails.
  pub process_file-Safe :
      (f : TextFile)
      → (f' : TextFile) × (r : Bool) × (process_file a replacements true f ≡ some (f', r))
        × Safe a replacements f f' r
  unfolding process_file
  process_file-Safe f =
      let (same, saved) = back_up_saves f in
      rewrite-Safe f (back_up a true f).0 (back_up a true f).1 same saved
