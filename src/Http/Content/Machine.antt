-- ===== src/Http/Content/Machine.antt =====
-- RecvHttpRequest on a whole request.
use high_concurrency_server.Common.{
  ℕ, ◌<◌, ◌≡◌, ◌≢◌, ◌∙◌, refl, sym, ap, true, false, some, none, List, [], ◌∷◌, ◌++◌, map, Bytes,
  codes, length, arith, ◌==◌, ◌||◌, Bool, Lacks, All, append_assoc, append-nil, u64_mod,
}
use high_concurrency_server.Buffer.{Buffer, lf}
use high_concurrency_server.Buffer.Inv.{IsValid, contents}
use high_concurrency_server.Util.Url.{url_decode}
use high_concurrency_server.Util.Split.Laws.{split-fields, fields}
use high_concurrency_server.Http.Statu.{HttpRecvStatu}
use high_concurrency_server.Http.Request.{body_size, set_header}
use high_concurrency_server.Http.RequestLine.{to_upper, is_line_end}
use high_concurrency_server.Http.RequestLine.Laws.{
  Method, name, IsVisible, request_line, match_line-request_line,
}
use high_concurrency_server.Http.Content.{
  HttpContent, init, max_line, parse_params, take_line, parse_http_line, recv_http_line,
  recv_http_head, recv_http_body, recv_from_line, recv_from_head, recv_from_body, recv_http_request,
}
use high_concurrency_server.Http.Content.Line.{recv_http_line_parsed}
use high_concurrency_server.Http.Content.Head.{
  IsHeader, head_text, with_header, with_headers, recv_http_head-head_text,
}
use high_concurrency_server.Http.Content.Whole.{filled}

-- The parser behind a request line without a query string.
abbrev pub lined : HttpContent → Method → Bytes → ℕ → HttpContent
lined c m path d = record c {
  request = record c.request {
    version = codes "HTTP/1." ++ d ∷ [];
    method = name m;
    path = url_decode path false;
  };
}

upper_name : (m : Method) → map to_upper (name m) ≡ name m
upper_name Method.get = refl
upper_name Method.post = refl
upper_name Method.head = refl
upper_name Method.delete = refl
upper_name Method.put = refl

take_line-plain :
    (c : HttpContent) (m : Method) (path : Bytes) (d : ℕ)
    → take_line c
        (record { method = name m; path = path; search = []; version = codes "HTTP/1." ++ d ∷ [] })
      ≡ some (lined c m path d, true)
unfolding take_line parse_params fields
take_line-plain c m path d = rw (upper_name m, split-fields [] b'&' [])

parse_http_line-plain :
    (c : HttpContent) (m : Method) (x : ℕ) (p : Bytes) (d : ℕ)
    → All IsVisible (x ∷ p)
    → Lacks b'?' p
    → (d == b'0') || (d == b'1') ≡ true
    → parse_http_line c (request_line m (x ∷ p) none d (13 ∷ lf ∷ []))
      ≡ some (lined c m (x ∷ p) d, true)
unfolding parse_http_line
parse_http_line-plain c m x p d vis lacks digit = rw (
  match_line-request_line m x p none d (13 ∷ lf ∷ []) vis tt lacks digit
      (unfold is_line_end in refl),
  take_line-plain c m (x ∷ p) d,
)

Lacks-append : (a : ℕ) (xs ys : Bytes) → Lacks a xs → Lacks a ys → Lacks a (xs ++ ys)
Lacks-append a [] ys h k = k
Lacks-append a (x ∷ xs) ys h k = (h.0, Lacks-append a xs ys h.1 k)

visible-Lacks : (t : Bytes) → All IsVisible t → Lacks lf t
visible-Lacks [] h = tt
visible-Lacks (x ∷ t) h = (ground arith, visible-Lacks t h.1)

name-Lacks : (m : Method) → Lacks lf (name m)
name-Lacks Method.get = omega arith
name-Lacks Method.post = omega arith
name-Lacks Method.head = omega arith
name-Lacks Method.delete = omega arith
name-Lacks Method.put = omega arith

-- The line without its line feed.
abbrev pub line_text : Method → Bytes → ℕ → Bytes
line_text m path d = request_line m path none d (13 ∷ [])

line_text-lf :
    (m : Method) (path : Bytes) (d : ℕ) (rest : Bytes)
    → request_line m path none d (13 ∷ lf ∷ rest) ≡ line_text m path d ++ lf ∷ rest
line_text-lf m path d rest = sym (
    append_assoc (name m) (b' ' ∷ ((path ++ []) ++ b' ' ∷ (codes "HTTP/1." ++ d ∷ 13 ∷ [])))
      (lf ∷ rest)
    ∙ ap (λ t. name m ++ b' ' ∷ t)
        (append_assoc (path ++ []) (b' ' ∷ (codes "HTTP/1." ++ d ∷ 13 ∷ [])) (lf ∷ rest)))

line_text-Lacks :
    (m : Method) (path : Bytes) (d : ℕ)
    → All IsVisible path
    → (d == b'0') || (d == b'1') ≡ true
    → Lacks lf (line_text m path d)
line_text-Lacks m path d vis digit =
    Lacks-append lf (name m) (b' ' ∷ ((path ++ []) ++ b' ' ∷ (codes "HTTP/1." ++ d ∷ 13 ∷ [])))
      (name-Lacks m)
      (
        omega arith,
        Lacks-append lf (path ++ []) (b' ' ∷ (codes "HTTP/1." ++ d ∷ 13 ∷ []))
            (rw (append-nil path) (visible-Lacks path vis)) tail,
      )
  where
    tail : Lacks lf (b' ' ∷ (codes "HTTP/1." ++ d ∷ 13 ∷ []))
    tail = let ok : d ≢ lf = ground arith in omega arith

with_headers-body :
    (hs : List (Bytes × Bytes)) (c : HttpContent)
    → ((with_headers c hs).request.body ≡ c.request.body)
      × ((with_headers c hs).request.method ≡ c.request.method)
      × ((with_headers c hs).request.path ≡ c.request.path)
      × ((with_headers c hs).resq_statu ≡ c.resq_statu)
unfolding set_header
with_headers-body [] c = (refl, refl, refl, refl)
with_headers-body (h ∷ hs) c = with_headers-body hs (with_header c h)

head_independent :
    (hs : List (Bytes × Bytes)) (c : HttpContent)
    → body_size (with_headers (record c { recv_statu = HttpRecvStatu.recv_http_head }) hs).request
      ≡ body_size (with_headers c hs).request
head_independent [] c = refl
head_independent (h ∷ hs) c = head_independent hs (with_header c h)

-- The three parts, as `recv_http_request` runs them from its first state.
through :
    (c c1 c2 c3 : HttpContent) (b b1 b2 b3 : Buffer) (r1 r2 r3 : Bool)
    → c.recv_statu ≡ HttpRecvStatu.recv_http_line
    → recv_http_line c b ≡ some (c1, b1, r1)
    → recv_http_head c1 b1 ≡ some (c2, b2, r2)
    → recv_http_body c2 b2 ≡ some (c3, b3, r3)
    → recv_http_request c b ≡ some (c3, b3)
unfolding recv_http_request
through c c1 c2 c3 b b1 b2 b3 r1 r2 r3 st e1 e2 e3 =
    enter ∙ rw (recv_from_line, e1, recv_from_head, e2, recv_from_body, e3)
  where
    enter : recv_http_request c b ≡ recv_from_line c b
    enter = ground arith

-- The parser that a message leaves with: complete, without an error, with the parts of the message.
pub record IsParsed (m : Method) (path body : Bytes) (c : HttpContent) : Type 0 where
  pub complete : c.recv_statu ≡ HttpRecvStatu.recv_http_over
  pub accepted : c.resq_statu ≡ 200
  pub method : c.request.method ≡ name m
  pub target : c.request.path ≡ url_decode path false
  pub content : c.request.body ≡ body

-- A whole message on a fresh parser: a request line that is not longer than the parser takes, with a
-- path of visible bytes and without a query string, then headers that a line can carry, the empty
-- line, and a body, empty or not, as long as the headers declare. One call of `RecvHttpRequest`
-- completes the request with the method, the decoded path and the body that were sent, and leaves
-- exactly what stands behind the message in the buffer.
pub recv_http_request-IsParsed :
    (m : Method) (x : ℕ) (p : Bytes) (d : ℕ) (hs : List (Bytes × Bytes)) (body rest : Bytes)
    (b : Buffer)
    → All IsVisible (x ∷ p)
    → Lacks b'?' p
    → (d == b'0') || (d == b'1') ≡ true
    → length (line_text m (x ∷ p) d) < max_line
    → All IsHeader hs
    → body_size (with_headers (lined init m (x ∷ p) d) hs).request ≡ some (length body)
    → length body < u64_mod
    → IsValid b
    → contents b ≡ request_line m (x ∷ p) none d (13 ∷ lf ∷ head_text hs (body ++ rest))
    → (c : HttpContent) × (b' : Buffer) × (recv_http_request init b ≡ some (c, b'))
      × IsParsed m (x ∷ p) body c
      × IsValid b'
      × (contents b' ≡ rest)
recv_http_request-IsParsed m x p d hs body rest b vis lacks digit short good size small v e =
    let shape = e ∙ line_text-lf m (x ∷ p) d (head_text hs (body ++ rest)) in
    let ended : parse_http_line init (line_text m (x ∷ p) d ++ lf ∷ [])
        ≡ some (lined init m (x ∷ p) d, true) =
      rw (← line_text-lf m (x ∷ p) d []) (parse_http_line-plain init m x p d vis lacks digit) in
    let (b1, e1, v1, left1) =
      recv_http_line_parsed init (lined init m (x ∷ p) d) b (line_text m (x ∷ p) d)
        (head_text hs (body ++ rest)) fresh.0 v shape (line_text-Lacks m (x ∷ p) d vis digit) short
        ended in
    let (b2, e2, v2, left2) = recv_http_head-head_text hs c1 b1 (body ++ rest) refl good v1 left1 in
    let same = with_headers-body hs c1 in
    let (c3, b3, e3, t) =
      filled c2 b2 body rest refl (same.0 ∙ fresh.1)
        (head_independent hs (lined init m (x ∷ p) d) ∙ size) small v2 left2 in
    (
      c3,
      b3,
      through init c1 c2 c3 b b1 b2 b3 true true true fresh.0 e1 e2 e3,
      record {
        complete = t.complete;
        accepted = t.status ∙ same.3 ∙ fresh.2;
        method = t.method ∙ same.1;
        target = t.path ∙ same.2;
        content = t.taken;
      },
      t.valid,
      t.left,
    )
  where
    c1 : HttpContent
    c1 = record (lined init m (x ∷ p) d) { recv_statu = HttpRecvStatu.recv_http_head }

    c2 : HttpContent
    c2 = record (with_headers c1 hs) { recv_statu = HttpRecvStatu.recv_http_body }

    fresh :
        (init.recv_statu ≡ HttpRecvStatu.recv_http_line)
        × (init.request.body ≡ [])
        × (init.resq_statu ≡ 200)
    fresh = unfold init in (refl, refl, refl)
