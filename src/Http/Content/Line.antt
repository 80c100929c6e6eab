-- ===== src/Http/Content/Line.antt =====
-- RecvHttpLine: the request line, and what a bad one leaves.
use high_concurrency_server.Common.{
  ◌≤◌, ◌<◌, ◌≡◌, ◌∙◌, refl, sym, true, false, some, none, [], ◌∷◌, ◌++◌, Bytes, length, arith, ltb,
  lt→ltb, ltb-false, ◌==◌, if◌then◌else◌, Lacks, length-append, ◌>>=◌,
}
use high_concurrency_server.Buffer.{Buffer, lf, get_line_and_add, current_enable_read_space_size}
use high_concurrency_server.Buffer.Inv.{IsValid, contents, read_size, length-contents}
use high_concurrency_server.Buffer.Line.{get_line_and_add_line, get_line_and_add_incomplete}
use high_concurrency_server.Http.Statu.{HttpRecvStatu}
use high_concurrency_server.Http.RequestLine.{match_line}
use high_concurrency_server.Http.Content.{
  HttpContent, max_line, fail, parse_http_line, recv_http_line, on_line, no_line,
}

pub enter_line :
    (c : HttpContent) (b : Buffer)
    → c.recv_statu ≡ HttpRecvStatu.recv_http_line
    → recv_http_line c b ≡ (get_line_and_add b >>= λ r. on_line c r.1 r.0)
unfolding recv_http_line
enter_line c b st = ground arith

-- Without a line feed in the buffer `RecvHttpLine` consumes nothing: it waits for more, or answers
-- 414 once more than `MAX_LINE` bytes have piled up.
pub recv_http_line_incomplete :
    (c : HttpContent) (b : Buffer)
    → c.recv_statu ≡ HttpRecvStatu.recv_http_line
    → IsValid b
    → Lacks lf (contents b)
    → recv_http_line c b
      ≡ some (if ltb max_line (length (contents b)) then (fail c 414, b, false) else (c, b, true))
unfolding on_line no_line
recv_http_line_incomplete c b st v h =
    enter_line c b st ∙ rw (get_line_and_add_incomplete b v h, readable)
  where
    readable : current_enable_read_space_size b ≡ length (contents b)
    readable = read_size b v ∙ sym (length-contents b v)

-- A request line that the expression does not match is answered 400. But the parser then waits for
-- headers: the state that `ParseHttpLine` has set to `RECV_HTTP_ERR` is overwritten.
pub recv_http_line_mismatch :
    (c : HttpContent) (b : Buffer) (line rest : Bytes)
    → c.recv_statu ≡ HttpRecvStatu.recv_http_line
    → IsValid b
    → contents b ≡ line ++ lf ∷ rest
    → Lacks lf line
    → length line < max_line
    → match_line (line ++ lf ∷ []) ≡ none
    → (c' : HttpContent) × (b' : Buffer) × (recv_http_line c b ≡ some (c', b', false))
      × (c'.resq_statu ≡ 400)
      × (c'.recv_statu ≡ HttpRecvStatu.recv_http_head)
      × (contents b' ≡ rest)
unfolding on_line parse_http_line
recv_http_line_mismatch c b line rest st v e h short bad =
    let (b', r, v', left) = get_line_and_add_line b line rest v h e in
    let size = length-append line (lf ∷ []) in
    let filled : (length (line ++ lf ∷ []) == 0) ≡ false = ground (arith, size) in
    let fits : ltb max_line (length (line ++ lf ∷ [])) ≡ false =
      ltb-false max_line (length (line ++ lf ∷ [])) (omega (arith, size)) in
    (
      record c { resq_statu = 400; recv_statu = HttpRecvStatu.recv_http_head },
      b',
      enter_line c b st ∙ rw (r, filled, fits, bad),
      refl,
      refl,
      left,
    )

-- A complete line longer than `MAX_LINE` is answered 414, and the parser stops.
pub recv_http_line_too_long :
    (c : HttpContent) (b : Buffer) (line rest : Bytes)
    → c.recv_statu ≡ HttpRecvStatu.recv_http_line
    → IsValid b
    → contents b ≡ line ++ lf ∷ rest
    → Lacks lf line
    → max_line ≤ length line
    → (b' : Buffer) × (recv_http_line c b ≡ some (fail c 414, b', false)) × (contents b' ≡ rest)
unfolding on_line
recv_http_line_too_long c b line rest st v e h long =
    let (b', r, v', left) = get_line_and_add_line b line rest v h e in
    let size = length-append line (lf ∷ []) in
    let filled : (length (line ++ lf ∷ []) == 0) ≡ false = ground (arith, size) in
    let over : ltb max_line (length (line ++ lf ∷ [])) ≡ true =
      lt→ltb max_line (length (line ++ lf ∷ [])) (omega (arith, size)) in
    (b', enter_line c b st ∙ rw (r, filled, over), left)

-- A good line leaves what `ParseHttpLine` made of it, and the headers come next.
pub recv_http_line_parsed :
    (c d : HttpContent) (b : Buffer) (line rest : Bytes)
    → c.recv_statu ≡ HttpRecvStatu.recv_http_line
    → IsValid b
    → contents b ≡ line ++ lf ∷ rest
    → Lacks lf line
    → length line < max_line
    → parse_http_line c (line ++ lf ∷ []) ≡ some (d, true)
    → (b' : Buffer) × (recv_http_line c b
        ≡ some (record d { recv_statu = HttpRecvStatu.recv_http_head }, b', true))
      × IsValid b'
      × (contents b' ≡ rest)
unfolding on_line
recv_http_line_parsed c d b line rest st v e h short good =
    let (b', r, v', left) = get_line_and_add_line b line rest v h e in
    let size = length-append line (lf ∷ []) in
    let filled : (length (line ++ lf ∷ []) == 0) ≡ false = ground (arith, size) in
    let fits : ltb max_line (length (line ++ lf ∷ [])) ≡ false =
      ltb-false max_line (length (line ++ lf ∷ [])) (omega (arith, size)) in
    (b', enter_line c b st ∙ rw (r, filled, fits, good), v', left)
