-- ===== src/Echo/Tests.antt =====
-- A root with one file, and a request that comes in two parts.
use high_concurrency_server.Common.{
  replicate, ℕ, ◌≡◌, refl, true, false, Option, none, some, List, [], ◌∷◌, ◌++◌, Bytes, codes,
  bytes_eq, sub64, add64, if◌then◌else◌, ◌>>=◌,
}
use high_concurrency_server.Buffer.{
  Buffer, get_line_and_add, get_line, get_crlf, current_enable_read_space_size, line_upto, memchr,
  move_read_position,
}
use high_concurrency_server.Util.Path.{vaild_path}
use high_concurrency_server.Http.Files.{FileSystem, is_directory, is_regular, read_file}
use high_concurrency_server.Http.Request.{HttpRequest}
use high_concurrency_server.Http.Response.{HttpResponse}
use high_concurrency_server.Http.Response
use high_concurrency_server.Http.Content.{recv_http_request}
use high_concurrency_server.Http.Content
use high_concurrency_server.Http.Server.{is_get}
use high_concurrency_server.Http.Writer.{to_string}
use high_concurrency_server.Echo.{has_dot, handle_request, target, moved, found}
use high_concurrency_server.Echo.Files.{Sends, handle_request-Sends}
use high_concurrency_server.Echo.Message.{
  EchoState, done, failed, unfinished, on_message, load, find_context, on_parsed, store,
}
use high_concurrency_server.Echo.Contexts.{EchoRun, EchoRun-fresh}
use high_concurrency_server.Echo.Answers.{fresh, outcome}

abbrev files : FileSystem
files = record {
  stat = λ name.
      if bytes_eq name (codes "www/a.html")
      then some (false, true)
      else if bytes_eq name (codes "www/d")
      then some (true, false)
      else none;
  open_size = λ name. if bytes_eq name (codes "www/a.html") then some 2 else none;
  read = λ name. (codes "hi", true);
}

abbrev www : Bytes
www = codes "www"

abbrev get_a : HttpRequest
get_a = record {
  method = codes "GET";
  path = codes "/a";
  version = codes "HTTP/1.1";
  body = [];
  matches = [];
  headers = [];
  params = [];
}

abbrev page : HttpResponse
page = record {
  status = 200;
  body = codes "hi";
  is_redirect = false;
  redirect = [];
  headers = (codes "Content-Type", codes "text/html") ∷ (codes "Content-Length", codes "2") ∷ [];
}

a_found : target files www (codes "/a") b'a' ≡ found (codes "/a.html")
unfolding target is_regular has_dot
a_found = refl

d_moved : target files www (codes "/d") b'd' ≡ moved
unfolding target is_regular has_dot is_directory
d_moved = refl

a_page : handle_request files www get_a (Response.init 200) ≡ some page
unfolding handle_request is_regular read_file vaild_path has_dot Response.set_header Response.init
    to_string
a_page = refl

handle_request-Sends_example :
    (is_get get_a ≡ true) × (vaild_path get_a.path ≡ some true) × Sends files www get_a page
handle_request-Sends_example =
    handle_request-Sends files www get_a (Response.init 200) page a_page refl

abbrev half : EchoState
half = record {
  context = none;
  heap = record { cell = λ p. none; next = 0 };
  buffer = record { buffer = codes "GET /a"; read_index = 0; write_index = 6 };
  sent = [];
  shut = false;
}

abbrev waiting : EchoState
waiting = elim (on_message files www 1 half) [ failed ↦ half | unfinished ↦ half | done e ↦ e ]

half_read : on_message files www 1 half ≡ done waiting
unfolding on_message recv_http_request load find_context Content.init get_line_and_add get_line
    get_crlf current_enable_read_space_size high_concurrency_server.Common.Words.sub64 line_upto
    memchr move_read_position high_concurrency_server.Common.Words.add64 on_parsed store
half_read = refl

abbrev rest : Buffer
rest = record { buffer = codes " HTTP/1.1\r\n\r\n"; read_index = 0; write_index = 13 }

EchoRun-fresh_example :
    outcome (on_message files www 2 (record waiting { buffer = rest }))
    ≡ fresh files www 2 (rest, waiting.sent, waiting.shut)
EchoRun-fresh_example =
    EchoRun-fresh files www half 2 refl
      (EchoRun.receive rest (EchoRun.message 1 EchoRun.here half_read))

-- A line of this many bytes "x", without its end.
abbrev line_of_x : ℕ → Buffer
line_of_x n = record { buffer = replicate n b'x'; read_index = 0; write_index = n }
