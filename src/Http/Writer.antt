-- ===== src/Http/Writer.antt =====
-- WriteResponse of Http/Http.hpp, and the change that OnMessage makes to the answer to a HEAD
-- request.
pub mod Decimal
pub mod Answer
use high_concurrency_server.Common.{
  ℕ, zero, suc, ◌+◌, ◌-◌, ◌/◌, ◌%◌, ◌≤◌, Bool, true, false, not, ◌&&◌, ◌||◌, Option, none, some,
  List, [], ◌∷◌, ◌++◌, Bytes, codes, length, ltb, leb, ◌==◌, bytes_eq, if◌then◌else◌, ◌>>=◌,
}
use high_concurrency_server.Buffer.{Buffer, current_enable_read_space_size, move_read_position}
use high_concurrency_server.Util.Path.{vaild_path}
use high_concurrency_server.Util.Mime.{ex_mime}
use high_concurrency_server.Util.Status.{statu_desc}
use high_concurrency_server.Http.Files.{FileSystem, is_directory, is_regular, read_file}
use high_concurrency_server.Http.Headers.{Headers}
use high_concurrency_server.Http.Request.{HttpRequest}
use high_concurrency_server.Http.Request
use high_concurrency_server.Http.Response.{HttpResponse, set_header, has_header, setbody}
use high_concurrency_server.Http.Statu.{HttpRecvStatu}
use high_concurrency_server.Http.Content.{HttpContent, recv_http_request}

-- `std::to_string` of a number that is not negative; the fuel bounds its digits.
unfoldable pub decimal : ℕ → ℕ → Bytes → Bytes
decimal zero n s = s
decimal (suc fuel) n s =
    let more = decimal fuel (n / 10) ((b'0' + n % 10) ∷ s) in
    if ltb n 10 then (b'0' + n) ∷ s else more

unfoldable pub to_string : ℕ → Bytes
unfolding decimal
to_string n = decimal (suc n) n []

-- `HttpResponse res(status)`
abbrev pub response : ℕ → HttpResponse
response status = record {
  status = status;
  body = [];
  is_redirect = false;
  redirect = [];
  headers = [];
}

-- The header that a response gets unless it is there.
abbrev pub set_missing : HttpResponse → Bytes → Bytes → HttpResponse
set_missing r key val = if has_header r key then r else set_header r key val

-- The headers that `WriteResponse` adds.
unfoldable pub add_connection : HttpRequest → HttpResponse → HttpResponse
unfolding set_header
add_connection req r =
    set_header r (codes "Connection")
      (if Request.is_cose req then codes "close" else codes "keep-alive")

unfoldable pub add_length : HttpResponse → HttpResponse
add_length r = set_missing r (codes "Content-Length") (to_string (length r.body))

unfoldable pub add_type : HttpResponse → HttpResponse
add_type r =
    if not (length r.body == 0)
    then set_missing r (codes "Content-Type") (codes "application/octet-stream")
    else r

unfoldable pub add_location : HttpResponse → HttpResponse
unfolding set_header
add_location r = if r.is_redirect then set_header r (codes "Location") r.redirect else r

unfoldable pub complete : HttpRequest → HttpResponse → HttpResponse
complete req res = add_location (add_type (add_length (add_connection req res)))

-- The lines of the headers.
unfoldable pub header_lines : Headers → Bytes
header_lines [] = []
header_lines ((k, v) ∷ m) = k ++ codes ": " ++ v ++ codes "\r\n" ++ header_lines m

-- What `WriteResponse` sends, and the response that it leaves.
unfoldable pub write_response : HttpRequest → HttpResponse → Bytes × HttpResponse
unfolding complete
write_response req res =
    let r = complete req res in
    (
      req.version
          ++ codes " "
          ++ to_string r.status
          ++ codes " "
          ++ statu_desc r.status
          ++ codes "\r\n"
          ++ header_lines r.headers
          ++ codes "\r\n"
          ++ r.body,
      r,
    )

-- The adjustment of the answer to a HEAD request.
unfoldable pub head_answer : HttpRequest → HttpResponse → HttpResponse
unfolding has_header set_header
head_answer req res =
    if bytes_eq req.method (codes "HEAD")
    then (if has_header res (codes "Content-Length")
        then set_header (record res { body = [] }) (codes "Content-Length") (codes "0")
        else record res { body = [] })
    else res
