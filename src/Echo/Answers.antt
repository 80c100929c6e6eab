-- ===== src/Echo/Answers.antt =====
-- What OnMessage of the echo server does to a connection that it always meets without a parser.
use high_concurrency_server.Common.{
  ℕ, zero, suc, ◌≤◌, ◌<◌, ◌≡◌, ◌∙◌, refl, Bool, true, false, not, Option, none, some, ◌++◌, Bytes,
  codes, ◌==◌, if◌then◌else◌, arith, inl, inr, Bool-cases, ==_refl,
}
use high_concurrency_server.Buffer.{Buffer, current_enable_read_space_size}
use high_concurrency_server.Any.{delete_content}
use high_concurrency_server.Http.Files.{FileSystem}
use high_concurrency_server.Http.Request.{HttpRequest}
use high_concurrency_server.Http.Response.{HttpResponse, set_header}
use high_concurrency_server.Http.Response
use high_concurrency_server.Http.Content.{HttpContent, recv_http_request}
use high_concurrency_server.Http.Content
use high_concurrency_server.Http.Server.{is_over}
use high_concurrency_server.Echo.{build_error_response, serialize_response, handle_request}
use high_concurrency_server.Echo.Message.{
  EchoState, Handled, done, failed, unfinished, and_then, handled, on_heap, get_context, store,
  drop_context, client_keep, shut_down, close, refuse, with_answer, reply, on_parsed, send_response,
}

-- What is seen of a connection from outside: the buffer, what was sent, and whether it was shut down.
abbrev pub Shown : Type 0
Shown = Buffer × Bytes × Bool

abbrev pub shown : EchoState → Shown
shown e = (e.buffer, e.sent, e.shut)

-- What is seen when `OnMessage` has returned.
pub data Outcome : Type 0 where
  seen : Shown → Outcome
  broken endless : Outcome

abbrev pub outcome : Handled → Outcome
outcome (done e) = seen (shown e)
outcome failed = broken
outcome unfinished = endless

-- A connection that is shut down is answered again while bytes are left.
abbrev pub closed : (Shown → Outcome) → Shown → Outcome
closed again (b, sent, shut) =
    if current_enable_read_space_size b == 0 then seen (b, sent, true) else again (b, sent, true)

module _ (fs : FileSystem) (root : Bytes) (again : Shown → Outcome) where
  abbrev pub replied : Shown → HttpRequest → Option HttpResponse → Outcome
  replied (b, sent, shut) req none = broken
  replied (b, sent, shut) req (some res) =
      let keep = client_keep req in
      let text = serialize_response (
        set_header res (codes "Connection") (if keep then codes "keep-alive" else codes "close")) in
      if keep then seen (b, sent ++ text, shut) else closed again (b, sent ++ text, shut)

  -- The answer to what a parser has received.
  abbrev pub answered : Shown → HttpContent → Outcome
  answered (b, sent, shut) c =
      if not (c.resq_statu == 200)
      then closed again
          (b, sent ++ serialize_response (build_error_response (Response.init c.resq_statu)), shut)
      else if is_over c.recv_statu
      then replied (b, sent, shut) c.request (handle_request fs root c.request (Response.init 200))
      else seen (b, sent, shut)

  abbrev pub received : Shown → Option (HttpContent × Buffer) → Outcome
  received (b0, sent, shut) none = broken
  received (b0, sent, shut) (some (c, b)) = answered (b, sent, shut) c

-- An `OnMessage` without any memory: each call begins with a new parser.
unfoldable pub fresh : FileSystem → Bytes → ℕ → Shown → Outcome
fresh fs root zero x = endless
fresh fs root (suc fuel) x =
    received fs root (fresh fs root fuel) x (recv_http_request Content.init x.0)

-- The heap has a ConnContext at the place, which is not free.
abbrev pub Alive : EchoState → ℕ → Type 0
Alive e p = ((c : HttpContent) × (e.heap.cell p ≡ some c)) × (p < e.heap.next)

-- `Get<ConnContext>()` finds nothing.
abbrev pub NoHolder : EchoState → Type 0
NoHolder e = get_context e.context ≡ none

-- The places below `n` are as they were.
pub record Keeps (n : ℕ) (e e' : EchoState) : Type 0 where
  pub taken : n ≤ e'.heap.next
  pub same : (q : ℕ) → q < n → e'.heap.cell q ≡ e.heap.cell q

-- What holds behind a call that has returned.
abbrev pub After : ℕ → EchoState → Handled → Type 0
After n e (done e') = NoHolder e' × Keeps n e e'
After n e failed = Unit {0}
After n e unfinished = Unit {0}

-- A call does what a memoryless one does, and leaves the places below `n`.
abbrev pub Agrees : ℕ → EchoState → Handled → Outcome → Type 0
Agrees n e h o = (outcome h ≡ o) × After n e h

-- `delete ctx` behind `Shutdown`.
drop-Agrees :
    (n p : ℕ) (e e1 : EchoState) (o : Outcome)
    → n ≤ p
    → Alive e1 p
    → Keeps n e e1
    → seen (shown e1) ≡ o
    → Agrees n e (handled (drop_context e1 (on_heap p))) o
unfolding drop_context delete_content get_context
drop-Agrees n p e e1 o below ((c, at), lt) k s = rw at (
  s,
  (
    refl,
    record {
      taken = k.taken;
      same = λ q l. let ne : (p == q) ≡ false = ground arith in rw ne (k.same q l);
    },
  ),
)

nested-Agrees :
    (n p : ℕ) (e e1 : EchoState) (h : Handled) (o : Outcome)
    → n ≤ p
    → Alive e1 p
    → Keeps n e e1
    → Agrees e1.heap.next e1 h o
    → Agrees n e (and_then h (λ e2. handled (drop_context e2 (on_heap p)))) o
nested-Agrees n p e e1 (done e2) o below ((c, at), lt) k (s, (_, k2)) =
    drop-Agrees n p e e2 o below ((c, k2.same p lt ∙ at), omega (arith, k2.taken))
      (record {
        taken = omega (arith, k.taken, k2.taken);
        same = λ q l. k2.same q (omega arith) ∙ k.same q l;
      })
      s
nested-Agrees n p e e1 failed o below a k (s, _) = (s, tt)
nested-Agrees n p e e1 unfinished o below a k (s, _) = (s, tt)

module _ (fs : FileSystem) (root : Bytes) (again : EchoState → Handled) (spec : Shown → Outcome)
    (agree : (e : EchoState) → NoHolder e → Agrees e.heap.next e (again e) (spec (shown e))) where
  close-Agrees :
      (n p : ℕ) (e e1 : EchoState)
      → n ≤ p
      → NoHolder e1
      → Alive e1 p
      → Keeps n e e1
      → Agrees n e (close fs root again e1 (on_heap p)) (closed spec (shown e1))
  unfolding close shut_down
  close-Agrees n p e e1 below nh a k =
      elim (Bool-cases (current_enable_read_space_size e1.buffer == 0)) [
        | inl empty ↦ rw empty (
            drop-Agrees n p e (record e1 { shut = true }) _ below a
              (record { taken = k.taken; same = k.same }) refl)
        | inr left ↦ rw left (
            nested-Agrees n p e (record e1 { shut = true }) (again (record e1 { shut = true })) _
              below a (record { taken = k.taken; same = k.same })
              (agree (record e1 { shut = true }) nh))
      ]

  stored-Alive :
      (e : EchoState) (p : ℕ) (c : HttpContent) → p < e.heap.next → Alive (store e (on_heap p) c) p
  unfolding store
  stored-Alive e p c lt = ((c, rw (==_refl p) refl), lt)

  stored-Keeps :
      (n p : ℕ) (e e1 : EchoState) (c : HttpContent)
      → n ≤ p
      → Keeps n e e1
      → Keeps n e (store e1 (on_heap p) c)
  unfolding store
  stored-Keeps n p e e1 c below k = record {
    taken = k.taken;
    same = λ q l. let ne : (p == q) ≡ false = ground arith in rw ne (k.same q l);
  }

  with_answer-Agrees :
      (n p : ℕ) (e e1 : EchoState) (req : HttpRequest) (o : Option HttpResponse)
      → n ≤ p
      → NoHolder e1
      → p < e1.heap.next
      → Keeps n e e1
      → Agrees n e
          (with_answer fs root again e1 (on_heap p) req o)
          (replied fs root spec (shown e1) req o)
  with_answer-Agrees n p e e1 req none below nh lt k = (refl, tt)
  with_answer-Agrees n p e e1 req (some res) below nh lt k = elim (Bool-cases (client_keep req)) [
    | inl keeps ↦ rw keeps (
        let e2 = send_response e1 (set_header res (codes "Connection") (codes "keep-alive")) in
        let kept : Keeps n e e2 = record { taken = k.taken; same = k.same } in
        (unfold store in refl, (unfold store in nh, stored-Keeps n p e e2 Content.init below kept)))
    | inr closes ↦ rw closes (
        let e2 = send_response e1 (set_header res (codes "Connection") (codes "close")) in
        let kept : Keeps n e e2 = record { taken = k.taken; same = k.same } in
        unfold store in
        close-Agrees n p e (store e2 (on_heap p) Content.init) below nh
          (stored-Alive e2 p Content.init lt) (stored-Keeps n p e e2 Content.init below kept))
  ]

  pub on_parsed-Agrees :
      (n p : ℕ) (e e1 : EchoState) (c : HttpContent)
      → n ≤ p
      → NoHolder e1
      → Alive e1 p
      → Keeps n e e1
      → Agrees n e (on_parsed fs root again e1 (on_heap p) c) (answered fs root spec (shown e1) c)
  unfolding on_parsed refuse reply
  on_parsed-Agrees n p e e1 c below nh a k = elim (Bool-cases (c.resq_statu == 200)) [
    | inl ok ↦ elim (Bool-cases (is_over c.recv_statu)) [
      | inl over ↦
          rw (ok, over)
            (with_answer-Agrees n p e e1 c.request
              (handle_request fs root c.request (Response.init 200)) below nh a.1 k)
      | inr waits ↦ rw (ok, waits) (refl, (nh, k))
    ]
    | inr bad ↦ rw bad (
        close-Agrees n p e (send_response e1 (build_error_response (Response.init c.resq_statu)))
          below nh a (record { taken = k.taken; same = k.same }))
  ]
