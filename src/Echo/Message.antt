-- ===== src/Echo/Message.antt =====
-- OnMessage of Sever_final/echo/echoserver.cc. A ConnContext is its parser: `keep_alive` is only read
-- behind its assignment in the same call. The calls of `Send` are noted, not carried
-- out. `none` and `failed` are an exception of the parser, a dead ConnContext, or a `delete` inside a holder.
use high_concurrency_server.Common.{
  ℕ, zero, suc, Bool, true, not, Option, none, some, ◌++◌, Bytes, codes, ◌==◌, bytes_eq,
  if◌then◌else◌, ◌>>=◌,
}
use high_concurrency_server.Buffer.{Buffer, current_enable_read_space_size}
use high_concurrency_server.Any.{Heap, alloc, delete_content, update}
use high_concurrency_server.Http.Files.{FileSystem}
use high_concurrency_server.Http.Request.{HttpRequest}
use high_concurrency_server.Http.Request
use high_concurrency_server.Http.Response.{HttpResponse, set_header}
use high_concurrency_server.Http.Response
use high_concurrency_server.Http.Content.{HttpContent, recv_http_request}
use high_concurrency_server.Http.Content
use high_concurrency_server.Http.Server.{is_over}
use high_concurrency_server.Echo.{build_error_response, serialize_response, handle_request}

-- What the `Any` of a connection may hold: a ConnContext, a `ConnContext *`, a `nullptr`.
pub data Context : Type 0 where
  conn_context : HttpContent → Context
  pointer : ℕ → Context
  null_pointer : Context

-- `Get<ConnContext>()`, which looks for a holder of exactly this type.
unfoldable pub get_context : Option Context → Option HttpContent
get_context none = none
get_context (some (conn_context c)) = some c
get_context (some (pointer p)) = none
get_context (some null_pointer) = none

-- The connection as OnMessage sees it, with the heap of the ConnContexts.
pub record EchoState : Type 0 where
  pub context : Option Context
  pub heap : Heap HttpContent
  pub buffer : Buffer
  pub sent : Bytes
  pub shut : Bool

-- Where `ctx` points.
pub data Place : Type 0 where
  in_holder : Place
  on_heap : ℕ → Place

-- `ctx`: what `Get` finds, or a new ConnContext, to which the connection gets a pointer.
unfoldable pub find_context : EchoState → Place × EchoState
unfolding get_context alloc
find_context e = elim (get_context e.context) [
  | some c ↦ (in_holder, e)
  | none ↦ (
    on_heap e.heap.next,
    record e { context = some (pointer e.heap.next); heap = alloc e.heap (Content.init) },
  )
]

unfoldable pub load : EchoState → Place → Option HttpContent
unfolding get_context
load e in_holder = get_context e.context
load e (on_heap p) = e.heap.cell p

unfoldable pub store : EchoState → Place → HttpContent → EchoState
store e in_holder c = record e { context = some (conn_context c) }
store e (on_heap p) c = record e { heap = record e.heap { cell = update e.heap.cell p (some c) } }

-- `delete ctx; conn->Set_Context(nullptr);`
unfoldable pub drop_context : EchoState → Place → Option EchoState
unfolding delete_content
drop_context e in_holder = none
drop_context e (on_heap p) = do
  h ← delete_content e.heap (some p)
  some (record e { heap = h; context = some null_pointer })

-- Whether the client keeps the connection.
unfoldable pub client_keep : HttpRequest → Bool
client_keep req =
    if bytes_eq req.version (codes "HTTP/1.1")
    then not (bytes_eq (Request.get_header req (codes "Connection")) (codes "close"))
    else bytes_eq (Request.get_header req (codes "Connection")) (codes "keep-alive")

abbrev pub send_response : EchoState → HttpResponse → EchoState
send_response e r = record e { sent = e.sent ++ serialize_response r }

-- How `OnMessage` ends: it returns, it fails, or, with this fuel, it has not ended.
pub data Handled : Type 0 where
  done : EchoState → Handled
  failed unfinished : Handled

abbrev pub and_then : Handled → (EchoState → Handled) → Handled
and_then (done e) k = k e
and_then failed k = failed
and_then unfinished k = unfinished

abbrev pub handled : Option EchoState → Handled
handled none = failed
handled (some e) = done e

-- `again` is `OnMessage`, as the connection's message callback.
module _ (fs : FileSystem) (root : Bytes) (again : EchoState → Handled) where
  -- `Shutdown` on the loop's thread: `ShutDownInLoop` runs at once, and calls the message callback
  -- while bytes are in the buffer.
  unfoldable pub shut_down : EchoState → Handled
  shut_down e =
      let nested = again (record e { shut = true }) in
      if current_enable_read_space_size e.buffer == 0
      then done (record e { shut = true })
      else nested

  -- `conn->Shutdown(); delete ctx; conn->Set_Context(nullptr);`
  unfoldable pub close : EchoState → Place → Handled
  unfolding shut_down
  close e ctx = and_then (shut_down e) (λ e1. handled (drop_context e1 ctx))

  -- The answer to a bad request.
  unfoldable pub refuse : EchoState → Place → ℕ → Handled
  unfolding close
  refuse e ctx status = close (send_response e (build_error_response (Response.init status))) ctx

  -- What follows `HandleRequest`.
  abbrev pub with_answer : EchoState → Place → HttpRequest → Option HttpResponse → Handled
  with_answer e ctx req none = failed
  with_answer e ctx req (some res) =
      let keep = client_keep req in
      let res1 =
        set_header res (codes "Connection") (if keep then codes "keep-alive" else codes "close") in
      let e1 = store (send_response e res1) ctx Content.init in
      let closed = close e1 ctx in if keep then done e1 else closed

  -- The answer to a complete request.
  unfoldable pub reply : EchoState → Place → HttpRequest → Handled
  reply e ctx req = with_answer e ctx req (handle_request fs root req (Response.init 200))

  -- Behind the parser.
  unfoldable pub on_parsed : EchoState → Place → HttpContent → Handled
  unfolding refuse reply
  on_parsed e ctx c =
      if not (c.resq_statu == 200)
      then refuse e ctx c.resq_statu
      else if is_over c.recv_statu
      then reply e ctx c.request
      else done e

  abbrev pub with_received : EchoState → Place → Option (HttpContent × Buffer) → Handled
  with_received e ctx none = failed
  with_received e ctx (some (c, b)) = on_parsed (store (record e { buffer = b }) ctx c) ctx c

  abbrev pub with_parser : EchoState → Place → Option HttpContent → Handled
  with_parser e ctx none = failed
  with_parser e ctx (some parser) = with_received e ctx (recv_http_request parser e.buffer)

module _ (fs : FileSystem) (root : Bytes) where
  -- `OnMessage`; the fuel bounds how deep its calls by `Shutdown` are nested.
  unfoldable pub on_message : ℕ → EchoState → Handled
  on_message zero e0 = unfinished
  on_message (suc fuel) e0 =
      let (ctx, e) = find_context e0 in with_parser fs root (on_message fuel) e ctx (load e ctx)
