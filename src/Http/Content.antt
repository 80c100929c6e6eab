-- ===== src/Http/Content.antt =====
-- HttpContent of Http/Http.hpp: the parser that a connection keeps between two arrivals of bytes.
-- `none` is a failed assertion of the buffer, an access outside a string, or the exception of
-- `std::stol`. The request line's regular expression is Http/RequestLine.
pub mod Line
pub mod Head
pub mod Body
pub mod Whole
pub mod Machine
pub mod Lines
pub mod Progress
pub mod Returns
mod Tests
use high_concurrency_server.Common.{
  ℕ, zero, suc, ◌+◌, ◌-◌, ◌≤◌, ◌<◌, Bool, true, false, not, ◌&&◌, ◌||◌, Option, some, none, List,
  [], ◌∷◌, ◌++◌, map, Bytes, codes, length, take, drop, ltb, leb, ◌==◌, bytes_eq, if◌then◌else◌,
  ◌>>=◌, ◌>>◌, sub64,
}
use high_concurrency_server.Buffer.{
  Buffer, copy_from, current_enable_read_space_size, get_line_and_add, move_read_position,
}
use high_concurrency_server.Util.Url.{url_decode}
use high_concurrency_server.Util.Split.{split}
use high_concurrency_server.Util.Split
use high_concurrency_server.Http.Request.{HttpRequest, set_params, set_header, body_size}
use high_concurrency_server.Http.Request
use high_concurrency_server.Http.Statu.{HttpRecvStatu}
use high_concurrency_server.Http.RequestLine.{RequestLine, match_line, to_upper}

pub record HttpContent : Type 0 where
  pub resq_statu : ℕ
  pub recv_statu : HttpRecvStatu
  pub request : HttpRequest

abbrev pub max_line : ℕ
max_line = 8192

abbrev pub is_line : HttpRecvStatu → Bool
is_line HttpRecvStatu.recv_http_line = true
is_line _ = false

abbrev pub is_head : HttpRecvStatu → Bool
is_head HttpRecvStatu.recv_http_head = true
is_head _ = false

abbrev pub is_body : HttpRecvStatu → Bool
is_body HttpRecvStatu.recv_http_body = true
is_body _ = false

unfoldable pub init : HttpContent
unfolding Request.init
init = record {
  resq_statu = 200;
  recv_statu = HttpRecvStatu.recv_http_line;
  request = Request.init;
}

unfoldable pub reset : HttpContent → HttpContent
unfolding Request.re_set
reset c = record {
  resq_statu = 200;
  recv_statu = HttpRecvStatu.recv_http_line;
  request = Request.re_set c.request;
}

-- `_resq_statu = code; _recv_statu = RECV_HTTP_ERR;`
abbrev pub fail : HttpContent → ℕ → HttpContent
fail c code = record c { resq_statu = code; recv_statu = HttpRecvStatu.recv_http_err }

-- One parameter of the query string; `e.find('=')` splits it.
unfoldable pub parse_param : HttpRequest → Bytes → Option ℕ → Option HttpRequest
parse_param r e none = none
parse_param r e (some pos) =
    some (set_params r (url_decode (take pos e) true) (url_decode (drop (pos + 1) e) true))

-- The loop over the parameters: the first one without `=` ends it, and those before it stay.
unfoldable pub parse_params : HttpRequest → List Bytes → HttpRequest × Bool
unfolding parse_param
parse_params r [] = (r, true)
parse_params r (e ∷ v) = elim (parse_param r e (Split.find (b'=' ∷ []) e)) [
  | none ↦ (r, false)
  | some r' ↦ parse_params r' v
]

-- What `ParseHttpLine` does with a line that matches.
unfoldable pub take_line : HttpContent → RequestLine → Option (HttpContent × Bool)
unfolding parse_params
take_line c l = do
  let r = record c.request {
    version = l.version;
    method = map to_upper l.method;
    path = url_decode l.path false;
  }
  v ← split l.search (b'&' ∷ []) []
  let (r', good) = parse_params r v
  let c' = record c { request = r' }
  some (if good then (c', true) else (fail c' 400, false))

-- A line that does not match is a bad request.
unfoldable pub on_match : HttpContent → Option RequestLine → Option (HttpContent × Bool)
on_match c none = some (fail c 400, false)
on_match c (some l) = take_line c l

unfoldable pub parse_http_line : HttpContent → Bytes → Option (HttpContent × Bool)
unfolding on_match
parse_http_line c line = on_match c (match_line line)

-- What a receiving function leaves: the parser, the buffer, and its result.
abbrev pub Received : Type 0
Received = HttpContent × Buffer × Bool

-- No complete line: wait for more, unless it is already too long.
unfoldable pub no_line : HttpContent → Buffer → Received
no_line c b =
    if ltb max_line (current_enable_read_space_size b) then (fail c 414, b, false) else (c, b, true)

-- The rest of `RecvHttpLine`: whether the line was good or not, the headers come next.
unfoldable pub on_line : HttpContent → Buffer → Bytes → Option Received
unfolding no_line
on_line c b line =
    if length line == 0
    then some (no_line c b)
    else if ltb max_line (length line)
    then some (fail c 414, b, false)
    else (do
      (c', ret) ← parse_http_line c line
      some (record c' { recv_statu = HttpRecvStatu.recv_http_head }, b, ret))

unfoldable pub recv_http_line : HttpContent → Buffer → Option Received
unfolding on_line
recv_http_line c b =
    if not (is_line c.recv_statu)
    then some (c, b, false)
    else (do (line, b') ← get_line_and_add b; on_line c b' line)

-- `if (line.back() == c) line.pop_back();`
unfoldable pub pop_back_if : ℕ → Bytes → Option Bytes
pop_back_if c [] = none
pop_back_if c (x ∷ []) = some (if x == c then [] else x ∷ [])
pop_back_if c (x ∷ y ∷ s) = pop_back_if c (y ∷ s) >>= λ r. some (x ∷ r)

-- A header line, split by `line.find(": ")`.
unfoldable pub take_header : HttpContent → Bytes → Option ℕ → HttpContent × Bool
take_header c line none = (fail c 400, false)
take_header c line (some pos) =
    (record c { request = set_header c.request (take pos line) (drop (pos + 2) line) }, true)

unfoldable pub parse_http_head : HttpContent → Bytes → Option (HttpContent × Bool)
parse_http_head c line = do
  line1 ← pop_back_if 10 line
  line2 ← pop_back_if 13 line1
  some (take_header c line2 (Split.find (codes ": ") line2))

-- The line that ends the headers.
abbrev pub is_blank : Bytes → Bool
is_blank line = bytes_eq line (10 ∷ []) || bytes_eq line (13 ∷ 10 ∷ [])

-- How the loop over the header lines ends: it returns, it fails, or, which does not happen with
-- enough fuel, it has not ended.
pub data HeadLoop : Type 0 where
  returned : Received → HeadLoop
  failed unfinished : HeadLoop

-- The end of a round, behind the parser of its line.
abbrev pub behind_head :
    Buffer → (HttpContent → Buffer → HeadLoop) → Option (HttpContent × Bool) → HeadLoop
behind_head b loop none = failed
behind_head b loop (some (c', ret)) =
    let more = loop c' b in if ret then more else returned (c', b, false)

-- A round of the loop for a line that was read; `loop` is the next round.
unfoldable pub on_head : HttpContent → Buffer → Bytes → (HttpContent → Buffer → HeadLoop) → HeadLoop
unfolding no_line
on_head c b line loop =
    if length line == 0
    then returned (no_line c b)
    else if ltb max_line (length line)
    then returned (fail c 414, b, false)
    else if is_blank line
    then returned (record c { recv_statu = HttpRecvStatu.recv_http_body }, b, true)
    else behind_head b loop (parse_http_head c line)

-- A round, with the line that was read.
abbrev pub with_line :
    HttpContent → (HttpContent → Buffer → HeadLoop) → Option (Bytes × Buffer) → HeadLoop
with_line c loop none = failed
with_line c loop (some (line, b')) = on_head c b' line loop

-- The loop over the header lines; the fuel bounds its rounds.
unfoldable pub head_loop : ℕ → HttpContent → Buffer → HeadLoop
head_loop zero c b = unfinished
head_loop (suc fuel) c b = with_line c (head_loop fuel) (get_line_and_add b)

-- The end of the loop as the result of `RecvHttpHead`. It has always ended: the fuel is enough.
abbrev pub head_result : HeadLoop → Option Received
head_result (returned r) = some r
head_result failed = none
head_result unfinished = none

unfoldable pub recv_http_head : HttpContent → Buffer → Option Received
recv_http_head c b =
    if not (is_head c.recv_statu)
    then some (c, b, false)
    else head_result (head_loop (suc (current_enable_read_space_size b)) c b)

-- Moves `n` readable bytes to the body.
unfoldable pub take_body : HttpContent → Buffer → ℕ → Option (HttpContent × Buffer)
take_body c b n = do
  d ← copy_from b.buffer b.read_index n
  b' ← move_read_position b n
  some (record c { request = record c.request { body = c.request.body ++ d } }, b')

-- The rest of `RecvHttpBody`, for a body of this length.
unfoldable pub on_body : HttpContent → Buffer → ℕ → Option Received
on_body c b content_length =
    let real_size = sub64 content_length (length c.request.body) in
    if content_length == 0
    then some (record c { recv_statu = HttpRecvStatu.recv_http_over }, b, true)
    else if leb real_size (current_enable_read_space_size b)
    then (do
      (c', b') ← take_body c b real_size
      some (record c' { recv_statu = HttpRecvStatu.recv_http_over }, b', true))
    else (do (c', b') ← take_body c b (current_enable_read_space_size b); some (c', b', true))

unfoldable pub recv_http_body : HttpContent → Buffer → Option Received
unfolding on_body
recv_http_body c b =
    if not (is_body c.recv_statu)
    then some (c, b, false)
    else (do content_length ← body_size c.request; on_body c b content_length)

-- The `switch` falls through: from the state on, the functions run in order.
unfoldable pub recv_from_body : HttpContent → Buffer → Option (HttpContent × Buffer)
unfolding recv_http_body
recv_from_body c b = do (c', b', ret) ← recv_http_body c b; some (c', b')

unfoldable pub recv_from_head : HttpContent → Buffer → Option (HttpContent × Buffer)
unfolding recv_http_head recv_from_body
recv_from_head c b = do (c', b', ret) ← recv_http_head c b; recv_from_body c' b'

unfoldable pub recv_from_line : HttpContent → Buffer → Option (HttpContent × Buffer)
unfolding recv_http_line recv_from_head
recv_from_line c b = do (c', b', ret) ← recv_http_line c b; recv_from_head c' b'

unfoldable pub recv_http_request : HttpContent → Buffer → Option (HttpContent × Buffer)
unfolding recv_from_line
recv_http_request c b = elim c.recv_statu [
  | HttpRecvStatu.recv_http_line ↦ recv_from_line c b
  | HttpRecvStatu.recv_http_head ↦ recv_from_head c b
  | HttpRecvStatu.recv_http_body ↦ recv_from_body c b
  | HttpRecvStatu.recv_http_err ↦ some (c, b)
  | HttpRecvStatu.recv_http_over ↦ some (c, b)
]
