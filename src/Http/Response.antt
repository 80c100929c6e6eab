-- ===== src/Http/Response.antt =====
-- HttpResponse of Http/Http.hpp.
use high_concurrency_server.Common.{
  ℕ, Bool, true, false, ◌&&◌, [], Bytes, codes, bytes_eq, if◌then◌else◌,
}
use high_concurrency_server.Http.Headers.{Headers, find-insert_self}
use high_concurrency_server.Http.Headers

pub record HttpResponse : Type 0 where
  pub status : ℕ
  pub body : Bytes
  pub is_redirect : Bool
  pub redirect : Bytes
  pub headers : Headers

unfoldable pub init : ℕ → HttpResponse
init status = record {
  status = status;
  body = [];
  is_redirect = false;
  redirect = [];
  headers = [];
}

unfoldable pub set_header : HttpResponse → Bytes → Bytes → HttpResponse
unfolding Headers.insert
set_header r key val = record r { headers = Headers.insert r.headers key val }

unfoldable pub has_header : HttpResponse → Bytes → Bool
unfolding Headers.has
has_header r key = Headers.has r.headers key

unfoldable pub get_header : HttpResponse → Bytes → Bytes
unfolding Headers.get
get_header r key = Headers.get r.headers key

unfoldable pub reset : HttpResponse → HttpResponse
reset r = record r { status = 200; body = []; is_redirect = false; redirect = []; headers = [] }

unfoldable pub setbody : HttpResponse → Bytes → Bytes → HttpResponse
unfolding set_header
setbody r text type = record (set_header r (codes "Content-Type") type) { body = text }

unfoldable pub set_redirect : HttpResponse → Bytes → ℕ → HttpResponse
set_redirect r url stau = record r { status = stau; is_redirect = true; redirect = url }

unfoldable pub is_cose : HttpResponse → Bool
unfolding has_header get_header
is_cose r =
    if has_header r (codes "Connection")
      && bytes_eq (get_header r (codes "Connection")) (codes "keep-alive")
    then false
    else true
