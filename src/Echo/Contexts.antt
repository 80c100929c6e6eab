-- ===== src/Echo/Contexts.antt =====
-- What a connection remembers between two calls of OnMessage.
use high_concurrency_server.Common.{
  ℕ, zero, suc, ◌≡◌, ◌∙◌, refl, sym, ap, false, none, some, Option, Bytes, ◌==◌, arith, ==_refl,
}
use high_concurrency_server.Buffer.{Buffer}
use high_concurrency_server.Any.{alloc}
use high_concurrency_server.Http.Files.{FileSystem}
use high_concurrency_server.Http.Content.{HttpContent, recv_http_request}
use high_concurrency_server.Http.Content
use high_concurrency_server.Echo.Message.{
  EchoState, Handled, done, failed, unfinished, on_heap, get_context, find_context, load, store,
  with_received, on_message, pointer,
}
use high_concurrency_server.Echo.Answers.{
  Outcome, shown, outcome, fresh, received, NoHolder, Keeps, Agrees, on_parsed-Agrees,
}

module _ (fs : FileSystem) (root : Bytes) where
  -- The connections of the echo server: bytes come in, and `OnMessage` is called and returns.
  pub data EchoRun (e : EchoState) : EchoState → Type 0 where
    here : EchoRun e e
    receive : {d : EchoState} (b : Buffer) → EchoRun e d → EchoRun e (record d { buffer = b })
    message :
        {d d' : EchoState} (fuel : ℕ)
        → EchoRun e d
        → on_message fs root fuel d ≡ done d'
        → EchoRun e d'

  -- The state behind the first lines of `OnMessage`, with its new ConnContext.
  abbrev opened : EchoState → EchoState
  opened e = record e { context = some (pointer e.heap.next); heap = alloc e.heap Content.init }

  find_context-opened :
      (e : EchoState) → NoHolder e → find_context e ≡ (on_heap e.heap.next, opened e)
  unfolding find_context
  find_context-opened e h = rw (h, find_context) refl

  load-opened : (e : EchoState) → load (opened e) (on_heap e.heap.next) ≡ some Content.init
  unfolding load alloc
  load-opened e = rw (==_refl e.heap.next) refl

  -- Behind the parser, the places below the new one are as they were.
  stored-Keeps :
      (e : EchoState) (c : HttpContent) (b : Buffer)
      → Keeps e.heap.next e (store (record (opened e) { buffer = b }) (on_heap e.heap.next) c)
  unfolding store alloc
  stored-Keeps e c b = record {
    taken = omega arith;
    same = λ q l. let ne : (e.heap.next == q) ≡ false = ground arith in rw ne refl;
  }

  received-Agrees :
      (fuel : ℕ) (e : EchoState) (o : Option (HttpContent × Buffer))
      → ((d : EchoState)
          → NoHolder d
          → Agrees d.heap.next d (on_message fs root fuel d) (fresh fs root fuel (shown d)))
      → Agrees e.heap.next e
          (with_received fs root (on_message fs root fuel) (opened e) (on_heap e.heap.next) o)
          (received fs root (fresh fs root fuel) (shown e) o)
  received-Agrees fuel e none agree = (refl, tt)
  received-Agrees fuel e (some (c, b)) agree =
      unfold store get_context alloc in
      on_parsed-Agrees fs root (on_message fs root fuel) (fresh fs root fuel) agree e.heap.next
        e.heap.next e (store (record (opened e) { buffer = b }) (on_heap e.heap.next) c) c
        (omega arith) refl ((c, rw (==_refl e.heap.next) refl), omega arith) (stored-Keeps e c b)

  on_message-Agrees :
      (fuel : ℕ) (e : EchoState)
      → NoHolder e
      → Agrees e.heap.next e (on_message fs root fuel e) (fresh fs root fuel (shown e))
  unfolding on_message fresh
  on_message-Agrees zero e nh = (refl, tt)
  on_message-Agrees (suc fuel) e nh =
      rw (find_context-opened e nh, load-opened e)
        (received-Agrees fuel e (recv_http_request Content.init e.buffer) (on_message-Agrees fuel))

  done-NoHolder :
      (n : ℕ) (e e' : EchoState) (h : Handled) (o : Outcome)
      → Agrees n e h o
      → h ≡ done e'
      → NoHolder e'
  done-NoHolder n e e' (done d) o (_, (nh, _)) same =
      let q : d ≡ e' = cc in ap (λ (x : EchoState). get_context x.context) (sym q) ∙ nh
  done-NoHolder n e e' failed o a same = absurd cc
  done-NoHolder n e e' unfinished o a same = absurd cc

  nothing-NoHolder : (e : EchoState) → e.context ≡ none → NoHolder e
  unfolding get_context
  nothing-NoHolder e h = rw h refl

  run-NoHolder : {e e' : EchoState} → NoHolder e → EchoRun e e' → NoHolder e'
  run-NoHolder n here = n
  run-NoHolder n (receive b r) = run-NoHolder n r
  run-NoHolder {e} {e'} n (message {d} {d'} fuel r h) =
      done-NoHolder d.heap.next d d' (on_message fs root fuel d) _
        (on_message-Agrees fuel d (run-NoHolder n r)) h

  -- Whatever a connection of the echo server, which began without a context, has received and
  -- answered before, `OnMessage` begins with a new parser, in the calls that its `Shutdown` makes of it
  -- too: what it leaves in the buffer, sends and shuts down, or that it fails, or that it has not ended
  -- at this depth of calls, depends only on the bytes that are in the buffer now. What an earlier
  -- parser took out of the buffer is lost.
  pub EchoRun-fresh :
      (e0 : EchoState) {e : EchoState} (fuel : ℕ)
      → e0.context ≡ none
      → EchoRun e0 e
      → outcome (on_message fs root fuel e) ≡ fresh fs root fuel (shown e)
  EchoRun-fresh e0 {e} fuel start run =
      (on_message-Agrees fuel e (run-NoHolder (nothing-NoHolder e0 start) run)).0
