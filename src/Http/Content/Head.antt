-- ===== src/Http/Content/Head.antt =====
-- RecvHttpHead: the header lines of a request, one after the other.
use high_concurrency_server.Common.{
  ℕ, zero, suc, ◌+◌, ◌≤◌, ◌<◌, ◌≡◌, ◌∙◌, refl, sym, ap, true, false, some, List, [], ◌∷◌, ◌++◌,
  Bytes, codes, length, drop, arith, ltb-false, ◌==◌, ==_refl, Lacks, All, append_assoc,
  length-append, take-append_length, drop-append_length,
}
use high_concurrency_server.Buffer.{Buffer, lf, current_enable_read_space_size}
use high_concurrency_server.Buffer.Inv.{IsValid, contents, read_size, length-contents}
use high_concurrency_server.Buffer.Line.{get_line_and_add_line}
use high_concurrency_server.Util.Split.{find}
use high_concurrency_server.Http.Statu.{HttpRecvStatu}
use high_concurrency_server.Http.Request.{set_header}
use high_concurrency_server.Http.Content.{
  HttpContent, HeadLoop, returned, head_result, max_line, is_blank, pop_back_if, take_header,
  parse_http_head, on_head, head_loop, recv_http_head,
}

-- "k: v\r\n"
abbrev pub header_line : Bytes × Bytes → Bytes
header_line h = h.0 ++ b':' ∷ b' ' ∷ (h.1 ++ 13 ∷ lf ∷ [])

-- A header that a line can carry.
abbrev pub IsHeader : Bytes × Bytes → Type 0
IsHeader h = Lacks b':' h.0 × Lacks lf h.0 × Lacks lf h.1 × (length (header_line h) ≤ max_line)

-- The header lines, the empty line, and what follows.
abbrev pub head_text : List (Bytes × Bytes) → Bytes → Bytes
head_text [] rest = 13 ∷ lf ∷ rest
head_text (h ∷ hs) rest = header_line h ++ head_text hs rest

abbrev pub with_header : HttpContent → Bytes × Bytes → HttpContent
with_header c h = record c { request = set_header c.request h.0 h.1 }

-- The parser with the headers entered in their order.
abbrev pub with_headers : HttpContent → List (Bytes × Bytes) → HttpContent
with_headers c [] = c
with_headers c (h ∷ hs) = with_headers (with_header c h) hs

find-colon :
    (k v : Bytes) → Lacks b':' k → find (codes ": ") (k ++ b':' ∷ b' ' ∷ v) ≡ some (length k)
unfolding find
find-colon [] v h = refl
find-colon (x ∷ k) v h = rw (find-colon k v h.1) (ground arith)

pop_back_if-last : (c : ℕ) (s : Bytes) → pop_back_if c (s ++ c ∷ []) ≡ some s
unfolding pop_back_if
pop_back_if-last c [] = rw (==_refl c)
pop_back_if-last c (x ∷ []) = rw (==_refl c)
pop_back_if-last c (x ∷ y ∷ s) = rw (pop_back_if-last c (y ∷ s))

-- The line without its end.
abbrev bare : Bytes × Bytes → Bytes
bare h = h.0 ++ b':' ∷ b' ' ∷ h.1

header_line-bare : (h : Bytes × Bytes) → header_line h ≡ (bare h ++ 13 ∷ []) ++ lf ∷ []
header_line-bare h = sym (
    append_assoc (bare h) (13 ∷ []) (lf ∷ []) ∙ append_assoc h.0 (b':' ∷ b' ' ∷ h.1) (13 ∷ lf ∷ []))

-- A header line enters its header: the key is what stands before the first ": ", the value what
-- stands behind it, without the end of the line.
pub parse_http_head-header_line :
    (c : HttpContent) (h : Bytes × Bytes)
    → IsHeader h
    → parse_http_head c (header_line h) ≡ some (with_header c h, true)
unfolding parse_http_head take_header
parse_http_head-header_line c h good = rw (
  header_line-bare h,
  pop_back_if-last lf (bare h ++ 13 ∷ []),
  pop_back_if-last 13 (bare h),
  find-colon h.0 h.1 good.0,
  take-append_length (length h.0) h.0 (b':' ∷ b' ' ∷ h.1) refl,
  behind,
)
  where
    behind : drop (length h.0 + 2) (bare h) ≡ h.1
    behind = rw (← append_assoc h.0 (b':' ∷ b' ' ∷ []) h.1) (
        drop-append_length (length h.0 + 2) (h.0 ++ b':' ∷ b' ' ∷ []) h.1
          (omega (arith, length-append h.0 (b':' ∷ b' ' ∷ []))))

not_blank : (k v : Bytes) → Lacks lf k → is_blank (k ++ b':' ∷ b' ' ∷ v) ≡ false
not_blank [] v h = refl
not_blank (x ∷ []) v h = ground arith
not_blank (x ∷ y ∷ k) v h = ground arith

on_head-header_line :
    (c : HttpContent) (b : Buffer) (h : Bytes × Bytes) (loop : HttpContent → Buffer → HeadLoop)
    → IsHeader h
    → on_head c b (header_line h) loop ≡ loop (with_header c h) b
unfolding on_head
on_head-header_line c b h loop good = rw (
  filled,
  ltb-false max_line (length (header_line h)) good.3,
  not_blank h.0 (h.1 ++ 13 ∷ lf ∷ []) good.1,
  parse_http_head-header_line c h good,
)
  where
    filled : (length (header_line h) == 0) ≡ false
    filled = ground (arith, length-append h.0 (b':' ∷ b' ' ∷ (h.1 ++ 13 ∷ lf ∷ [])))

on_head-blank :
    (c : HttpContent) (b : Buffer) (loop : HttpContent → Buffer → HeadLoop)
    → on_head c b (13 ∷ lf ∷ []) loop
      ≡ returned (record c { recv_statu = HttpRecvStatu.recv_http_body }, b, true)
unfolding on_head
on_head-blank c b loop = refl

Lacks-append : (xs ys : Bytes) → Lacks lf xs → Lacks lf ys → Lacks lf (xs ++ ys)
Lacks-append [] ys h k = k
Lacks-append (x ∷ xs) ys h k = (h.0, Lacks-append xs ys h.1 k)

Lacks-bare : (h : Bytes × Bytes) → IsHeader h → Lacks lf (bare h ++ 13 ∷ [])
Lacks-bare h good =
    Lacks-append (bare h) (13 ∷ [])
      (Lacks-append h.0 (b':' ∷ b' ' ∷ h.1) good.1 (omega arith, (omega arith, good.2)))
      (omega arith, tt)

-- With the header lines and the empty line in the buffer, the loop enters every header in order,
-- waits for the body next, and leaves exactly what stands behind the empty line readable. One more
-- round than there are headers is enough.
pub head_loop-head_text :
    (hs : List (Bytes × Bytes)) (fuel : ℕ) (c : HttpContent) (b : Buffer) (rest : Bytes)
    → length hs < fuel
    → All IsHeader hs
    → IsValid b
    → contents b ≡ head_text hs rest
    → (b' : Buffer) × (head_loop fuel c b
        ≡ returned
            (record (with_headers c hs) { recv_statu = HttpRecvStatu.recv_http_body }, b', true))
      × IsValid b'
      × (contents b' ≡ rest)
unfolding head_loop
head_loop-head_text hs zero c b rest h good v e = absurd (omega arith)
head_loop-head_text [] (suc fuel) c b rest h good v e =
    let (b', r, v', left) = get_line_and_add_line b (13 ∷ []) rest v (omega arith, tt) e in
    (b', rw (r, on_head-blank c b' (head_loop fuel)), v', left)
head_loop-head_text (x ∷ hs) (suc fuel) c b rest h good v e =
    let shape : contents b ≡ (bare x ++ 13 ∷ []) ++ lf ∷ head_text hs rest =
      e
      ∙ ap (λ t. t ++ head_text hs rest) (header_line-bare x)
      ∙ append_assoc (bare x ++ 13 ∷ []) (lf ∷ []) (head_text hs rest) in
    let (b1, r, v1, left) =
      get_line_and_add_line b (bare x ++ 13 ∷ []) (head_text hs rest) v (Lacks-bare x good.0)
        shape in
    let (b', r', v', left') =
      head_loop-head_text hs fuel (with_header c x) b1 rest (omega arith) good.1 v1 left in
    (
      b',
      rw (r, ← header_line-bare x, on_head-header_line c b1 x (head_loop fuel) good.0) r',
      v',
      left',
    )

pub enter_head :
    (c : HttpContent) (b : Buffer)
    → c.recv_statu ≡ HttpRecvStatu.recv_http_head
    → recv_http_head c b ≡ head_result (head_loop (suc (current_enable_read_space_size b)) c b)
unfolding recv_http_head
enter_head c b st = ground arith

length-le-head_text :
    (hs : List (Bytes × Bytes)) (rest : Bytes) → length hs ≤ length (head_text hs rest)
length-le-head_text [] rest = omega arith
length-le-head_text (h ∷ hs) rest = omega (
  arith,
  length-le-head_text hs rest,
  length-append (header_line h) (head_text hs rest),
  length-append h.0 (b':' ∷ b' ' ∷ (h.1 ++ 13 ∷ lf ∷ [])),
)

-- `RecvHttpHead` in the state for headers, with all header lines and the empty line in the buffer,
-- enters every header in order, waits for the body next, and leaves what stands behind the empty
-- line.
pub recv_http_head-head_text :
    (hs : List (Bytes × Bytes)) (c : HttpContent) (b : Buffer) (rest : Bytes)
    → c.recv_statu ≡ HttpRecvStatu.recv_http_head
    → All IsHeader hs
    → IsValid b
    → contents b ≡ head_text hs rest
    → (b' : Buffer) × (recv_http_head c b
        ≡ some (record (with_headers c hs) { recv_statu = HttpRecvStatu.recv_http_body }, b', true))
      × IsValid b'
      × (contents b' ≡ rest)
recv_http_head-head_text hs c b rest st good v e =
    let (b', r, v', left) =
      head_loop-head_text hs (suc (current_enable_read_space_size b)) c b rest enough good v e in
    (b', enter_head c b st ∙ ap head_result r, v', left)
  where
    enough : length hs < suc (current_enable_read_space_size b)
    enough =
        omega (arith, read_size b v, length-contents b v, ap length e, length-le-head_text hs rest)
