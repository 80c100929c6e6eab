-- ===== src/Echo.antt =====
-- HttpServer of Sever_final/echo/echoserver.cc, which answers requests from the files below a root.
-- `none` is what the callees fail with.
pub mod Files
pub mod Answers
pub mod Contexts
pub mod Overlong
pub mod Message
mod Tests
use high_concurrency_server.Common.{
  ℕ, Bool, true, false, not, ◌&&◌, ◌||◌, Option, none, some, [], ◌∷◌, ◌++◌, Bytes, codes, length,
  ◌==◌, bytes_eq, if◌then◌else◌, ◌>>=◌,
}
use high_concurrency_server.Buffer.{Buffer}
use high_concurrency_server.Any.{Heap, alloc, delete_content, update}
use high_concurrency_server.Util.Path.{vaild_path}
use high_concurrency_server.Util.Mime.{ex_mime}
use high_concurrency_server.Util.Status.{statu_desc}
use high_concurrency_server.Http.Files.{FileSystem, is_directory, is_regular, read_file}
use high_concurrency_server.Http.Request.{HttpRequest}
use high_concurrency_server.Http.Response.{HttpResponse, set_header, set_redirect}
use high_concurrency_server.Http.Content.{HttpContent, recv_http_request}
use high_concurrency_server.Http.Server.{back, is_get, is_over}
use high_concurrency_server.Http.Writer.{to_string, header_lines}

unfoldable pub error_page : ℕ → Bytes
error_page status =
    codes "<html><head><title>Error</title></head><body><h1>"
    ++ to_string status
    ++ codes " "
    ++ statu_desc status
    ++ codes "</h1></body></html>"

-- The two headers, which do not replace older ones, and the body.
abbrev pub with_body : HttpResponse → Bytes → Bytes → Bytes → HttpResponse
with_body r type size body =
    record (set_header (set_header r (codes "Content-Type") type) (codes "Content-Length") size) {
      body = body;
    }

unfoldable pub build_error_response : HttpResponse → HttpResponse
unfolding error_page
build_error_response r =
    let page = error_page r.status in with_body r (codes "text/html") (to_string (length page)) page

unfoldable pub serialize_response : HttpResponse → Bytes
serialize_response r =
    codes "HTTP/1.1 "
    ++ to_string r.status
    ++ codes " "
    ++ statu_desc r.status
    ++ codes "\r\n"
    ++ header_lines r.headers
    ++ codes "\r\n"
    ++ r.body

-- `path.find('.') != npos`
unfoldable pub has_dot : Bytes → Bool
has_dot [] = false
has_dot (c ∷ s) = (c == b'.') || has_dot s

-- `/` and the empty path name the index.
abbrev pub root_path : Bytes → Bytes
root_path path =
    if (length path == 0) || bytes_eq path (codes "/") then codes "/index.html" else path

-- What a path leads to; a file has the name of its place below the root.
pub data Target : Type 0 where
  moved missing : Target
  found : Bytes → Target

abbrev pub found_if : Bytes → Bool → Target
found_if name true = found name
found_if name false = missing

module _ (fs : FileSystem) (root : Bytes) where
  abbrev pub is_file : Bytes → Bool
  is_file name = is_regular fs (root ++ name)

  -- Steps 1 to 5 of `HandleRequest`, on a path that ends in `last`.
  unfoldable pub target : Bytes → ℕ → Target
  target path last =
      if last == b'/'
      then found_if (path ++ codes "index.html") (is_file (path ++ codes "index.html"))
      else if is_file path
      then found path
      else if not (has_dot path) && is_file (path ++ codes ".html")
      then found (path ++ codes ".html")
      else if is_directory fs (root ++ path)
      then moved
      else missing

  -- The answer with a file that was read.
  unfoldable pub with_file : HttpRequest → HttpResponse → Bytes → Bytes × Bool → HttpResponse
  unfolding ex_mime
  with_file req res name (content, false) = build_error_response (record res { status = 500 })
  with_file req res name (content, true) =
      with_body (record res { status = 200 }) (ex_mime (root ++ name)) (to_string (length content))
        (if bytes_eq req.method (codes "GET") then content else [])

  unfoldable pub on_target : HttpRequest → HttpResponse → Bytes → Target → HttpResponse
  unfolding with_file set_redirect
  on_target req res path moved = set_redirect res (path ++ codes "/") 302
  on_target req res path missing = build_error_response (record res { status = 404 })
  on_target req res path (found name) = with_file req res name (read_file fs (root ++ name) [])

  unfoldable pub handle_request : HttpRequest → HttpResponse → Option HttpResponse
  unfolding target on_target back
  handle_request req res =
      if not (is_get req) then some (build_error_response (record res { status = 405 })) else (do
        valid ← vaild_path req.path
        let path = root_path req.path
        last ← back path
        some (
            if not valid
            then build_error_response (record res { status = 403 })
            else on_target req res path (target path last)))
