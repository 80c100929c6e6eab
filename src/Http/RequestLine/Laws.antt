-- ===== src/Http/RequestLine/Laws.antt =====
-- The matcher on request lines that a client writes.
use high_concurrency_server.Common.{
  ℕ, ◌≡◌, refl, true, false, Option, some, none, [], ◌∷◌, ◌++◌, append-nil, ◌||◌, Bytes, codes,
  ◌==◌, arith, All, All-append, Lacks,
}
use high_concurrency_server.Http.Request.{is_space}
use high_concurrency_server.Http.RequestLine.{
  methods, any_literal, spaces, token, cut_query, target, version, is_line_end, match_line,
}

pub data Method : Type 0 where
  get post head delete put : Method

abbrev pub name : Method → Bytes
name get = codes "GET"
name post = codes "POST"
name head = codes "HEAD"
name delete = codes "DELETE"
name put = codes "PUT"

-- A byte that is not white space.
abbrev pub IsVisible : ℕ → Type 0
IsVisible c = is_space c ≡ false

-- The query string with its question mark, if there is one.
abbrev pub query : Option Bytes → Bytes
query none = []
query (some q) = b'?' ∷ q

abbrev pub query_text : Option Bytes → Bytes
query_text none = []
query_text (some q) = q

-- `METHOD path?query HTTP/1.d`, with the end of the line `\r\n` or `\n`.
abbrev pub request_line : Method → Bytes → Option Bytes → ℕ → Bytes → Bytes
request_line m path q d end =
    name m ++ b' ' ∷ ((path ++ query q) ++ b' ' ∷ (codes "HTTP/1." ++ d ∷ end))

any_literal-name : (m : Method) (s : Bytes) → any_literal methods (name m ++ s) ≡ some (name m, s)
unfolding any_literal
any_literal-name get s = refl
any_literal-name post s = refl
any_literal-name head s = refl
any_literal-name delete s = refl
any_literal-name put s = refl

token-append : (t r : Bytes) → All IsVisible t → token (t ++ b' ' ∷ r) ≡ (t, b' ' ∷ r)
unfolding token
token-append [] r h = refl
token-append (c ∷ t) r h = rw (token-append t r h.1, h.0)

cut_query-mark : (p q : Bytes) → Lacks b'?' p → cut_query (p ++ b'?' ∷ q) ≡ (p, q)
unfolding cut_query
cut_query-mark [] q h = refl
cut_query-mark (c ∷ p) q h = rw (cut_query-mark p q h.1) (ground arith)

cut_query-Lacks : (p : Bytes) → Lacks b'?' p → cut_query p ≡ (p, [])
unfolding cut_query
cut_query-Lacks [] h = refl
cut_query-Lacks (c ∷ p) h = rw (cut_query-Lacks p h.1) (ground arith)

target-query :
    (c : ℕ) (p : Bytes) (q : Option Bytes)
    → Lacks b'?' p
    → target ((c ∷ p) ++ query q) ≡ some (c ∷ p, query_text q)
unfolding target
target-query c p none h = rw (append-nil p, cut_query-Lacks p h)
target-query c p (some q) h = rw (cut_query-mark p q h)

version-digit :
    (d : ℕ) (end : Bytes)
    → (d == b'0') || (d == b'1') ≡ true
    → version (codes "HTTP/1." ++ d ∷ end) ≡ some (codes "HTTP/1." ++ d ∷ [], end)
unfolding version
version-digit d end h = rw h

IsVisible-query :
    (path : Bytes) (q : Option Bytes)
    → All IsVisible path
    → All IsVisible (query_text q)
    → All IsVisible (path ++ query q)
IsVisible-query path none h k = All-append IsVisible path [] h tt
IsVisible-query path (some q) h k = All-append IsVisible path (b'?' ∷ q) h (refl, k)

skip_visible : (c : ℕ) (s : Bytes) → IsVisible c → spaces (b' ' ∷ c ∷ s) ≡ some (c ∷ s)
unfolding spaces
skip_visible c s h = rw h

-- A request line is taken apart into what it was written from: the method, a path of visible bytes
-- with no question mark behind its first byte, the query string if there is one, and the version,
-- also when the line ends in `\n` alone.
pub match_line-request_line :
    (m : Method) (c : ℕ) (p : Bytes) (q : Option Bytes) (d : ℕ) (end : Bytes)
    → All IsVisible (c ∷ p)
    → All IsVisible (query_text q)
    → Lacks b'?' p
    → (d == b'0') || (d == b'1') ≡ true
    → is_line_end end ≡ true
    → match_line (request_line m (c ∷ p) q d end)
      ≡ some (record {
        method = name m;
        path = c ∷ p;
        search = query_text q;
        version = codes "HTTP/1." ++ d ∷ [];
      })
unfolding match_line
match_line-request_line m c p q d end vp vq lacks digit eol = rw (
  any_literal-name m (b' ' ∷ (((c ∷ p) ++ query q) ++ b' ' ∷ (codes "HTTP/1." ++ d ∷ end))),
  skip_visible c ((p ++ query q) ++ b' ' ∷ (codes "HTTP/1." ++ d ∷ end)) vp.0,
  token-append ((c ∷ p) ++ query q) (codes "HTTP/1." ++ d ∷ end) (IsVisible-query (c ∷ p) q vp vq),
  target-query c p q lacks,
  skip_visible b'H' (codes "TTP/1." ++ d ∷ end) refl,
  version-digit d end digit,
  eol,
)
