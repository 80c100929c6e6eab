-- ===== src/Http/Request.antt =====
-- HttpRequest of Http/Http.hpp. `_matches` is what the last `regex_match` of a route stored.
use high_concurrency_server.Common.{
  ℕ, ◌+◌, ◌-◌, ◌*◌, ◌%◌, ◌^◌, Bool, true, false, not, ◌&&◌, ◌||◌, Option, some, none, List, [], ◌∷◌,
  Bytes, codes, bytes_eq, leb, ◌==◌, if◌then◌else◌, ◌>>=◌,
}
use high_concurrency_server.Http.Headers.{Headers}
use high_concurrency_server.Http.Headers

pub record HttpRequest : Type 0 where
  pub method : Bytes
  pub path : Bytes
  pub version : Bytes
  pub body : Bytes
  pub matches : List Bytes
  pub headers : Headers
  pub params : Headers

abbrev pub http_1_1 : Bytes
http_1_1 = codes "HTTP/1.1"

unfoldable pub init : HttpRequest
init = record {
  method = [];
  path = [];
  version = http_1_1;
  body = [];
  matches = [];
  headers = [];
  params = [];
}

unfoldable pub re_set : HttpRequest → HttpRequest
re_set r = record r {
  method = [];
  path = [];
  version = http_1_1;
  body = [];
  matches = [];
  headers = [];
  params = [];
}

unfoldable pub set_header : HttpRequest → Bytes → Bytes → HttpRequest
unfolding Headers.insert
set_header r key val = record r { headers = Headers.insert r.headers key val }

unfoldable pub has_header : HttpRequest → Bytes → Bool
unfolding Headers.has
has_header r key = Headers.has r.headers key

unfoldable pub get_header : HttpRequest → Bytes → Bytes
unfolding Headers.get
get_header r key = Headers.get r.headers key

unfoldable pub set_params : HttpRequest → Bytes → Bytes → HttpRequest
unfolding Headers.insert
set_params r key val = record r { params = Headers.insert r.params key val }

unfoldable pub has_params : HttpRequest → Bytes → Bool
unfolding Headers.has
has_params r key = Headers.has r.params key

unfoldable pub get_params : HttpRequest → Bytes → Bytes
unfolding Headers.get
get_params r key = Headers.get r.params key

abbrev pub is_digit : ℕ → Bool
is_digit c = leb b'0' c && leb c b'9'

-- `isspace` of the C locale
abbrev pub is_space : ℕ → Bool
is_space c = (c == 32) || (leb 9 c && leb c 13)

-- The digits of `strtol`, up to the first other byte.
unfoldable pub digits : Bytes → ℕ → ℕ
digits [] n = n
digits (c ∷ s) n = let more = digits s (n * 10 + (c - b'0')) in if is_digit c then more else n

-- `std::stol` from the first digit on: it throws without a digit or past `LONG_MAX`.
unfoldable pub stol_digits : Bytes → ℕ → Option ℕ
unfolding digits
stol_digits [] limit = none
stol_digits (c ∷ s) limit =
    if is_digit c
    then (if leb (digits (c ∷ s) 0) limit then some (digits (c ∷ s) 0) else none)
    else none

-- `std::stol` behind the white space, as a `size_t`: a negative value wraps.
unfoldable pub stol_sign : Bytes → Option ℕ
unfolding stol_digits
stol_sign [] = none
stol_sign (c ∷ s) =
    if c == b'-'
    then (stol_digits s (2 ^ 63) >>= λ n. some ((2 ^ 64 - n) % 2 ^ 64))
    else if c == b'+'
    then stol_digits s (2 ^ 63 - 1)
    else stol_digits (c ∷ s) (2 ^ 63 - 1)

unfoldable pub stol : Bytes → Option ℕ
unfolding stol_sign
stol [] = none
stol (c ∷ s) = let rest = stol s in if is_space c then rest else stol_sign (c ∷ s)

-- `none` is the exception of `stol`, which nothing catches.
unfoldable pub body_size : HttpRequest → Option ℕ
unfolding has_header get_header stol
body_size r =
    if not (has_header r (codes "Content-Length"))
    then some 0
    else stol (get_header r (codes "Content-Length"))

unfoldable pub is_cose : HttpRequest → Bool
unfolding has_header get_header
is_cose r =
    if has_header r (codes "Connection")
      && bytes_eq (get_header r (codes "Connection")) (codes "keep-alive")
    then false
    else true
