-- ===== src/Http/Server/Tests.antt =====
-- A server whose patterns match themselves only, with one file.
use high_concurrency_server.Common.{
  ◌≡◌, refl, true, false, Option, none, some, List, [], ◌∷◌, Bytes, codes, bytes_eq, if◌then◌else◌,
  arith,
}
use high_concurrency_server.Buffer.{Buffer}
use high_concurrency_server.Buffer.Inv.{IsValid}
use high_concurrency_server.Util.Split
use high_concurrency_server.Util.Split.Laws.{fields}
use high_concurrency_server.Util.Path
use high_concurrency_server.Util.Path.Depth.{walk, is_some}
use high_concurrency_server.Http.Files.{FileSystem, is_regular}
use high_concurrency_server.Http.Headers
use high_concurrency_server.Http.Request.{HttpRequest}
use high_concurrency_server.Http.Response.{HttpResponse, has_header}
use high_concurrency_server.Http.Content.{HttpContent, recv_http_request, reset}
use high_concurrency_server.Http.Server.{
  Handler, HttpServer, is_get, back, is_file_handler, on_message, names_file,
}
use high_concurrency_server.Http.Writer.{write_response}
use high_concurrency_server.Http.Writer.Answer.{
  HasLength, content_length, write_response-content_length,
}
use high_concurrency_server.Http.Server.Routes.{is_file_handler-walk}
use high_concurrency_server.Http.Server.Rounds.{Ends, on_message-Ends}

abbrev same : Bytes → Bytes → Option (List Bytes)
same r path = if bytes_eq r path then some (path ∷ []) else none

abbrev files : FileSystem
files = record {
  stat = λ name. if bytes_eq name (codes "www/a.html") then some (false, true) else none;
  open_size = λ name. if bytes_eq name (codes "www/a.html") then some 2 else none;
  read = λ name. (codes "hi", true);
}

abbrev get_a : HttpRequest
get_a = record {
  method = codes "GET";
  path = codes "/a.html";
  version = codes "HTTP/1.1";
  body = [];
  matches = [];
  headers = [];
  params = [];
}

abbrev page : HttpResponse
page = record {
  status = 200;
  body = codes "hello";
  is_redirect = false;
  redirect = [];
  headers = [];
}

abbrev say : Bytes → Handler
say text req res = record res { body = text }

abbrev server : HttpServer Bytes same files
server = record {
  get_route = (codes "/b", say (codes "b")) ∷ (codes "/a.html", say (codes "a")) ∷ [];
  post_route = [];
  put_route = [];
  delete_route = [];
  basedir = codes "www";
}

write_response-content_length_example : HasLength (write_response get_a page).0 (codes "hello")
write_response-content_length_example =
    write_response-content_length get_a page (unfold has_header Headers.has Headers.find in refl)
      (omega arith)

abbrev with_length : HttpResponse
with_length = record page { headers = (content_length, codes "5") ∷ [] }

a_is_served : is_file_handler Bytes same files server get_a ≡ some true
unfolding is_file_handler names_file back is_regular Path.vaild_path Path.check_levels Split.split
    Split.split_loop Split.find
a_is_served = refl

is_file_handler-walk_example :
    (is_get get_a ≡ true) × (is_some (walk (fields b'/' (codes "/a.html")) []) ≡ true)
is_file_handler-walk_example =
    is_file_handler-walk Bytes same files server get_a (unfold fields in (refl, tt)) a_is_served

abbrev one_byte : Buffer
one_byte = record { buffer = codes "x"; read_index = 0; write_index = 1 }

one_byte-IsValid : IsValid one_byte
one_byte-IsValid = record { ordered = omega arith; within = omega arith; bounded = omega arith }

on_message-Ends_example :
    Ends Bytes same files server high_concurrency_server.Http.Content.init one_byte
      (on_message Bytes same files 3 server high_concurrency_server.Http.Content.init one_byte [])
on_message-Ends_example =
    on_message-Ends Bytes same files 3 server high_concurrency_server.Http.Content.init one_byte []
      one_byte-IsValid (omega arith)
