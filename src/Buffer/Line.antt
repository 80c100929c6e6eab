-- ===== src/Buffer/Line.antt =====
-- `memchr`, `GetLine` and `GetLineAndAdd` of Buffer.
use high_concurrency_server.Common.{
  ℕ, zero, suc, ◌<◌, ◌≡◌, ◌∙◌, sym, ap, refl, some, none, [], ◌∷◌, ◌++◌, Bytes, length, take, arith,
  ==_refl, Lacks, add64_lem, length-append, length-take, take-append_length, drop-append_length,
  append_assoc, add64,
}
use high_concurrency_server.Buffer.{
  Buffer, lf, memchr, get_crlf, line_upto, get_line, get_line_and_add,
}
use high_concurrency_server.Buffer.Inv.{IsValid, contents, length-contents}
use high_concurrency_server.Buffer.Write.{copied_contents}
use high_concurrency_server.Buffer.Read.{Pops, move_read_position-Pops, move_read_zero, read_prefix}

pub memchr_found : (c : ℕ) (l r : Bytes) → Lacks c l → memchr (l ++ c ∷ r) c ≡ some (length l)
unfolding memchr
memchr_found c [] r h = rw (==_refl c)
memchr_found c (x ∷ l) r h = ground (arith, memchr_found c l r)

pub memchr_absent : (c : ℕ) (l : Bytes) → Lacks c l → memchr l c ≡ none
unfolding memchr
memchr_absent c [] h = refl
memchr_absent c (x ∷ l) h = ground (arith, memchr_absent c l)

pub memchr-lt : (c : ℕ) (l : Bytes) (n : ℕ) → memchr l c ≡ some n → n < length l
unfolding memchr
memchr-lt c [] n h = cc
memchr-lt c (x ∷ l) zero h = omega arith
memchr-lt c (x ∷ l) (suc n) h = ground (arith, memchr-lt c l n)

line_of_offset :
    (b : Buffer) (n : ℕ)
    → IsValid b
    → memchr (contents b) lf ≡ some n
    → get_line b ≡ some (take (suc n) (contents b))
unfolding get_line get_crlf line_upto
line_of_offset b n v e =
    let lt : n < length (contents b) = memchr-lt lf (contents b) n e in
    let e' : add64 n 1 ≡ suc n =
      add64_lem n 1 (omega (arith, length-contents b v, v.within, v.bounded)) ∙ omega arith in
    rw (copied_contents b v, e, e', read_prefix b (suc n) v lt)

-- What `GetLineAndAdd` returns and leaves, by the place of the first line feed.
pub get_line_and_add_found :
    (b : Buffer) (n : ℕ)
    → IsValid b
    → memchr (contents b) lf ≡ some n
    → (b' : Buffer) × (get_line_and_add b ≡ some (take (suc n) (contents b), b'))
      × Pops b (suc n) b'
unfolding get_line_and_add
get_line_and_add_found b n v e =
    let lt : n < length (contents b) = memchr-lt lf (contents b) n e in
    let size : length (take (suc n) (contents b)) ≡ suc n =
      omega (arith, length-take (suc n) (contents b)) in
    let (b', m, p) = move_read_position-Pops b (suc n) v lt in
    (b', rw (line_of_offset b n v e, size, m), p)

pub get_line_and_add_absent :
    (b : Buffer) → IsValid b → memchr (contents b) lf ≡ none → get_line_and_add b ≡ some ([], b)
unfolding get_line_and_add get_line get_crlf line_upto
get_line_and_add_absent b v e = rw (copied_contents b v, e, move_read_zero b v)

-- When the readable bytes hold a line feed, `GetLineAndAdd` returns the bytes up to and with the
-- first one and removes them; the bytes behind it stay readable.
pub get_line_and_add_line :
    (b : Buffer) (line rest : Bytes)
    → IsValid b
    → Lacks lf line
    → contents b ≡ line ++ lf ∷ rest
    → (b' : Buffer) × (get_line_and_add b ≡ some (line ++ lf ∷ [], b'))
      × IsValid b'
      × (contents b' ≡ rest)
get_line_and_add_line b line rest v h e =
    let at : memchr (contents b) lf ≡ some (length line) = rw e (memchr_found lf line rest h) in
    let (b', r, p) = get_line_and_add_found b (length line) v at in
    let size : suc (length line) ≡ length (line ++ lf ∷ []) =
      omega (arith, length-append line (lf ∷ [])) in
    let shape : contents b ≡ (line ++ lf ∷ []) ++ rest =
      e ∙ sym (append_assoc line (lf ∷ []) rest) in
    (
      b',
      r
          ∙ ap (λ t. some (t, b'))
              (rw shape (take-append_length (suc (length line)) (line ++ lf ∷ []) rest size)),
      p.valid,
      p.rest ∙ rw shape (drop-append_length (suc (length line)) (line ++ lf ∷ []) rest size),
    )

-- When the readable bytes hold no line feed, `GetLineAndAdd` returns the empty string and leaves
-- the buffer as it is.
pub get_line_and_add_incomplete :
    (b : Buffer) → IsValid b → Lacks lf (contents b) → get_line_and_add b ≡ some ([], b)
get_line_and_add_incomplete b v h = get_line_and_add_absent b v (memchr_absent lf (contents b) h)
