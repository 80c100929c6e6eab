-- ===== src/Http/Content/Lines.antt =====
-- A line that is read from a buffer, and what the parsers of one line return.
use high_concurrency_server.Common.{
  ℕ, suc, ◌+◌, ◌<◌, ◌≡◌, ◌∙◌, refl, ap, true, false, Bool, some, [], ◌∷◌, Bytes, length, take,
  arith, ◌==◌, codes, ◌⊎◌, inl, inr, Bool-cases, Option-cases, length-take, length-drop,
}
use high_concurrency_server.Buffer.{Buffer, lf, memchr, get_line_and_add}
use high_concurrency_server.Buffer.Inv.{IsValid, contents}
use high_concurrency_server.Buffer.Line.{memchr-lt, get_line_and_add_found, get_line_and_add_absent}
use high_concurrency_server.Util.Split
use high_concurrency_server.Util.Split.Laws.{split-fields}
use high_concurrency_server.Http.RequestLine.{RequestLine, match_line}
use high_concurrency_server.Http.Content.{
  HttpContent, fail, take_line, parse_http_line, is_blank, pop_back_if, parse_http_head,
  take_header,
}

-- A line that was read: it is not empty, and its bytes are gone from the buffer.
pub record GotLine (b : Buffer) (line : Bytes) (b' : Buffer) : Type 0 where
  pub valid : IsValid b'
  pub some_bytes : 0 < length line
  pub shorter : length (contents b') + length line ≡ length (contents b)

-- `GetLineAndAdd` on a valid buffer: no line and no change, or a line.
pub next_line :
    (b : Buffer)
    → IsValid b
    → (get_line_and_add b ≡ some ([], b))
      ⊎ ((line : Bytes) × (b' : Buffer) × (get_line_and_add b ≡ some (line, b'))
          × GotLine b line b')
next_line b v = elim (Option-cases (memchr (contents b) lf)) [
  | inl e ↦ inl (get_line_and_add_absent b v e)
  | inr (n, e) ↦
      let (b', r, p) = get_line_and_add_found b n v e in
      let lt = memchr-lt lf (contents b) n e in
      let size = length-take (suc n) (contents b) in
      let left = ap length p.rest ∙ length-drop (suc n) (contents b) in
      inr (
        take (suc n) (contents b),
        b',
        r,
        record {
          valid = p.valid;
          some_bytes = omega (arith, size);
          shorter = omega (arith, size, left);
        },
      )
]

pub take_line_total :
    (c : HttpContent) (l : RequestLine)
    → (d : HttpContent) × (r : Bool) × (take_line c l ≡ some (d, r))
unfolding take_line
take_line_total c l = elim (Option-cases (take_line c l)) [
  | inl e ↦ absurd (let wrong = rw (take_line, split-fields l.search b'&' []) at e in cc)
  | inr (p, e) ↦ (p.0, p.1, e)
]

pub parse_http_line_total :
    (c : HttpContent) (line : Bytes)
    → (d : HttpContent) × (r : Bool) × (parse_http_line c line ≡ some (d, r))
unfolding parse_http_line
parse_http_line_total c line = elim (Option-cases (match_line line)) [
  | inl e ↦ (fail c 400, false, rw e)
  | inr (l, e) ↦ let (d, r, t) = take_line_total c l in (d, r, rw e t)
]

-- The last byte of a line can be removed, and what is left is empty only if it was the only one.
pop_back_total :
    (a x : ℕ) (s : Bytes)
    → (r : Bytes) × (pop_back_if a (x ∷ s) ≡ some r) × ((0 < length r) ⊎ (x ∷ s ≡ a ∷ []))
unfolding pop_back_if
pop_back_total a x [] = elim (Bool-cases (x == a)) [
  | inl same ↦ ([], rw same, inr (ground arith))
  | inr other ↦ (x ∷ [], rw other, inl (omega arith))
]
pop_back_total a x (y ∷ s) =
    let (r, e, h) = pop_back_total a y s in (x ∷ r, rw e, inl (omega arith))

nonempty : (line : Bytes) → 0 < length line → (x : ℕ) × (s : Bytes) × (line ≡ x ∷ s)
nonempty [] h = absurd (omega arith)
nonempty (x ∷ s) h = (x, s, refl)

-- `ParseHttpHead` on a line that is neither empty nor blank.
pub parse_http_head_total :
    (c : HttpContent) (line : Bytes)
    → 0 < length line
    → is_blank line ≡ false
    → (d : HttpContent) × (r : Bool) × (parse_http_head c line ≡ some (d, r))
unfolding parse_http_head
parse_http_head_total c line h text =
    let (x, s, e) = nonempty line h in
    let (l1, e1, rest) = pop_back_total 10 x s in
    let filled : 0 < length l1 = elim rest [
      | inl ok ↦ ok
      | inr bare ↦ absurd (let blank : is_blank line ≡ true = ap is_blank (e ∙ bare) in cc)
    ] in
    let (y, t, e') = nonempty l1 filled in
    let (l2, e2, _) = pop_back_total 13 y t in
    let res = take_header c l2 (Split.find (codes ": ") l2) in (res.0, res.1, rw (e, e1, e', e2))
