-- ===== src/Http/Server.antt =====
-- Http_Server of Http/Http.hpp. A `std::regex` of a route is a value of `R`, and `match` is
-- `regex_match` on a path: the submatches, if it matches. A handler is a function of the request
-- and the response. `none` is `back()` of an empty string, or what the parser fails with.
pub mod Routes
pub mod Rounds
mod Tests
use high_concurrency_server.Common.{
  ℕ, zero, suc, ◌+◌, ◌-◌, ◌/◌, ◌%◌, ◌≤◌, Bool, true, false, not, ◌&&◌, ◌||◌, Option, none, some,
  List, [], ◌∷◌, ◌++◌, Bytes, codes, length, ltb, leb, ◌==◌, bytes_eq, if◌then◌else◌, ◌>>=◌,
}
use high_concurrency_server.Buffer.{Buffer, current_enable_read_space_size, move_read_position}
use high_concurrency_server.Util.Path.{vaild_path}
use high_concurrency_server.Util.Mime.{ex_mime}
use high_concurrency_server.Util.Status.{statu_desc}
use high_concurrency_server.Http.Files.{FileSystem, is_directory, is_regular, read_file}
use high_concurrency_server.Http.Headers.{Headers}
use high_concurrency_server.Http.Request.{HttpRequest}
use high_concurrency_server.Http.Response.{HttpResponse, set_header, has_header, setbody}
use high_concurrency_server.Http.Response
use high_concurrency_server.Http.Statu.{HttpRecvStatu}
use high_concurrency_server.Http.Content.{HttpContent, recv_http_request}
use high_concurrency_server.Http.Content
use high_concurrency_server.Http.Writer.{write_response, head_answer}

abbrev pub Handler : Type 0
Handler = HttpRequest → HttpResponse → HttpResponse

-- `s.back()`
unfoldable pub back : Bytes → Option ℕ
back [] = none
back (c ∷ []) = some c
back (c ∷ d ∷ s) = back (d ∷ s)

-- `GET` or `HEAD`
abbrev pub is_get : HttpRequest → Bool
is_get req = bytes_eq req.method (codes "GET") || bytes_eq req.method (codes "HEAD")

-- A path that ends in `/` names the index of its directory.
abbrev pub with_index : ℕ → Bytes → Bytes
with_index last path = if last == b'/' then path ++ codes "index.html" else path

-- The guards of `IsFileHandler`: a web root, and a method that gets.
abbrev pub guarded : Bool → Bool → Option Bool → Option Bool
guarded true g r = some false
guarded false false r = some false
guarded false true r = r

-- The parser has a whole request.
abbrev pub is_over : HttpRecvStatu → Bool
is_over HttpRecvStatu.recv_http_over = true
is_over _ = false

module _ (R : Type 0) (match : R → Bytes → Option (List Bytes)) (fs : FileSystem) where
  pub record HttpServer : Type 0 where
    pub get_route : List (R × Handler)
    pub post_route : List (R × Handler)
    pub put_route : List (R × Handler)
    pub delete_route : List (R × Handler)
    pub basedir : Bytes

  unfoldable pub init : HttpServer
  init = record { get_route = []; post_route = []; put_route = []; delete_route = []; basedir = [] }

  unfoldable pub set_basedir : HttpServer → Bytes → HttpServer
  unfolding is_directory
  set_basedir s path = if not (is_directory fs path) then s else record s { basedir = path }

  -- `Get`, `Put`, `Post`, `Delete`
  unfoldable pub get : HttpServer → R → Handler → HttpServer
  get s pattern handler = record s { get_route = s.get_route ++ (pattern, handler) ∷ [] }

  unfoldable pub put : HttpServer → R → Handler → HttpServer
  put s pattern handler = record s { put_route = s.put_route ++ (pattern, handler) ∷ [] }

  unfoldable pub post : HttpServer → R → Handler → HttpServer
  post s pattern handler = record s { post_route = s.post_route ++ (pattern, handler) ∷ [] }

  unfoldable pub delete : HttpServer → R → Handler → HttpServer
  delete s pattern handler = record s { delete_route = s.delete_route ++ (pattern, handler) ∷ [] }

  unfoldable pub eerr_hander : HttpServer → HttpResponse → HttpResponse
  unfolding setbody read_file
  eerr_hander s res =
      let (buffer, ret) = read_file fs (s.basedir ++ codes "/404.html") [] in
      setbody res buffer (codes "text/html")

  -- The last two tests of `IsFileHandler`.
  unfoldable pub names_file : HttpServer → HttpRequest → Option Bool
  unfolding back is_regular
  names_file s req = do
    valid ← vaild_path req.path
    last ← back (s.basedir ++ req.path)
    some (valid && is_regular fs (with_index last (s.basedir ++ req.path)))

  unfoldable pub is_file_handler : HttpServer → HttpRequest → Option Bool
  is_file_handler s req = guarded (length s.basedir == 0) (is_get req) (names_file s req)

  -- What `FileHandler` does with the file.
  unfoldable pub serve : HttpResponse → Bytes → Bytes × Bool → HttpResponse
  unfolding set_header ex_mime
  serve res file (d, ret) =
      let r = record res { body = d } in
      if ret then set_header r (codes "Content-Type") (ex_mime file) else record r { status = 404 }

  unfoldable pub file_handler : HttpServer → HttpRequest → HttpResponse → Option HttpResponse
  unfolding serve back read_file
  file_handler s req res = do
    last ← back req.path
    let file = with_index last (s.basedir ++ req.path)
    some (serve res file (read_file fs file res.body))

  -- A route's pattern against the path: the loop ends at the first that matches.
  unfoldable pub dispather :
      HttpRequest → HttpResponse → List (R × Handler) → HttpRequest × HttpResponse
  dispather req res [] = (req, record res { status = 404 })
  dispather req res ((re, func) ∷ handlers) = elim (match re req.path) [
    | none ↦ dispather (record req { matches = [] }) res handlers
    | some m ↦ (record req { matches = m }, func (record req { matches = m }) res)
  ]

  unfoldable pub by_method : HttpServer → HttpRequest → HttpResponse → HttpRequest × HttpResponse
  unfolding dispather
  by_method s req res =
      if is_get req
      then dispather req res s.get_route
      else if bytes_eq req.method (codes "POST")
      then dispather req res s.post_route
      else if bytes_eq req.method (codes "PUT")
      then dispather req res s.put_route
      else if bytes_eq req.method (codes "DELETE")
      then dispather req res s.delete_route
      else (req, record res { status = 405 })

  unfoldable pub route :
      HttpServer → HttpRequest → HttpResponse → Option (HttpRequest × HttpResponse)
  unfolding is_file_handler file_handler by_method
  route s req res = do
    file ← is_file_handler s req
    if file then (file_handler s req res >>= λ r. some (req, r)) else some (by_method s req res)

  -- What a round of `OnMessage` leaves: the parser, the buffer, what was sent, and whether it calls
  -- `Shutdown`; `again` is true when the loop goes on.
  pub record Round : Type 0 where
    pub content : HttpContent
    pub buffer : Buffer
    pub sent : Bytes
    pub shut : Bool
    pub again : Bool

  -- The answer to a bad request. Everything that is in the buffer goes with it.
  unfoldable pub refuse : HttpServer → HttpContent → Buffer → Option Round
  unfolding eerr_hander write_response
  refuse s c b = do
    let (text, r) = write_response c.request (eerr_hander s (Response.init c.resq_statu))
    b' ← move_read_position b (current_enable_read_space_size b)
    some
        (record { content = Content.reset c; buffer = b'; sent = text; shut = true; again = false })

  -- The answer to a complete request.
  unfoldable pub answer : HttpServer → HttpContent → Buffer → Option Round
  unfolding route head_answer write_response
  answer s c b = do
    (req, res) ← route s c.request (Response.init c.resq_statu)
    let (text, r) = write_response req (head_answer req res)
    let close = Response.is_cose r
    some (record {
      content = Content.reset (record c { request = req });
      buffer = b;
      sent = text;
      shut = close;
      again = not close;
    })

  -- A round behind the parser.
  unfoldable pub on_request : HttpServer → HttpContent → Buffer → Option Round
  unfolding refuse answer
  on_request s c b =
      if leb 400 c.resq_statu
      then refuse s c b
      else if not (is_over c.recv_statu)
      then some (record { content = c; buffer = b; sent = []; shut = false; again = false })
      else answer s c b

  -- The body of the loop of `OnMessage`.
  unfoldable pub round : HttpServer → HttpContent → Buffer → Option Round
  unfolding on_request
  round s c b = do (c', b') ← recv_http_request c b; on_request s c' b'

  -- How the loop of `OnMessage` ends: behind a round, in a failure of the code, or, which does not
  -- happen with enough fuel, without an end.
  pub data Served : Type 0 where
    ended : Round → Served
    failed unfinished : Served

  -- `Shutdown` was called before.
  abbrev pub marked : Bool → Served → Served
  marked shut (ended q) = ended (record q { shut = shut || q.shut })
  marked shut failed = failed
  marked shut unfinished = unfinished

  -- What a round leads to; `more` is `OnMessage` from there: the rest of the loop, or the call that
  -- `Shutdown` makes at once, on the loop's thread, by `ShutDownInLoop` while bytes are in the buffer.
  abbrev pub behind : Bytes → (Round → Served) → Option Round → Served
  behind sent more none = failed
  behind sent more (some r) =
      let rest = more r in
      if r.again || r.shut then marked r.shut rest else ended (record r { sent = sent ++ r.sent })

  -- `OnMessage`, of which the fuel bounds the rounds, those of the calls inside it included.
  unfoldable pub on_message : ℕ → HttpServer → HttpContent → Buffer → Bytes → Served
  unfolding round
  on_message zero s c b sent = unfinished
  on_message (suc fuel) s c b sent =
      let rest =
        behind sent (λ r. on_message fuel s r.content r.buffer (sent ++ r.sent)) (round s c b) in
      if current_enable_read_space_size b == 0
      then ended (record { content = c; buffer = b; sent = sent; shut = false; again = false })
      else rest
