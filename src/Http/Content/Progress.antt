-- ===== src/Http/Content/Progress.antt =====
-- `RecvHttpRequest` returns or throws on every valid buffer, and a request takes bytes.
use high_concurrency_server.Common.{
  Bool, suc, ◌<◌, ◌≡◌, ◌≢◌, ◌∙◌, refl, sym, ap, false, Option, some, none, length, arith, ◌⊎◌, inl,
  inr, Option-cases,
}
use high_concurrency_server.Buffer.{Buffer, current_enable_read_space_size}
use high_concurrency_server.Buffer.Inv.{IsValid, contents, read_size, length-contents}
use high_concurrency_server.Http.Statu.{HttpRecvStatu}
use high_concurrency_server.Http.Request.{body_size}
use high_concurrency_server.Http.Content.{
  HttpContent, is_line, is_head, is_body, recv_http_line, recv_http_head, recv_http_body,
  recv_from_line, recv_from_head, recv_from_body, recv_http_request,
}
use high_concurrency_server.Http.Content.Head.{enter_head}
use high_concurrency_server.Http.Content.Body.{enter_body}
use high_concurrency_server.Http.Content.Returns.{
  Waits, Kept, recv_http_line_total, head_loop_total, on_body_total,
}

-- `std::stol` throws on the length of the body that the parser waits for.
abbrev pub ThrowsBody : HttpContent → Type 0
ThrowsBody c = (c.recv_statu ≡ HttpRecvStatu.recv_http_body) × (body_size c.request ≡ none)

-- It does so behind `RecvHttpHead`, which has returned, and which does nothing in another state.
abbrev pub ThrowsHead : HttpContent → Buffer → Type 0
ThrowsHead c b =
    (c1 : HttpContent) × (b1 : Buffer) × (r : Bool) × (recv_http_head c b ≡ some (c1, b1, r))
    × ThrowsBody c1

-- It does so behind `RecvHttpLine`, which has returned, and which does nothing in another state, and
-- `RecvHttpHead`.
abbrev pub Throws : HttpContent → Buffer → Type 0
Throws c b =
    (c1 : HttpContent) × (b1 : Buffer) × (r : Bool) × (recv_http_line c b ≡ some (c1, b1, r))
    × ThrowsHead c1 b1

-- What the functions from the body on leave: nothing, when `std::stol` throws, or a valid buffer that
-- is not longer; in the other states nothing changes.
abbrev From :
    (HttpContent → Buffer → Option (HttpContent × Buffer))
    → (HttpContent → Type 0)
    → (HttpContent → Buffer → Type 0)
    → HttpContent
    → Buffer
    → Type 0
From f Other Fails c b =
    ((f c b ≡ none) × Fails c b)
    ⊎ ((c' : HttpContent) × (b' : Buffer) × (f c b ≡ some (c', b'))
        × Kept b b'
        × (Other c → c' ≡ c))

abbrev NotBody : HttpContent → Type 0
NotBody c = is_body c.recv_statu ≡ false

abbrev NotHead : HttpContent → Type 0
NotHead c = (is_head c.recv_statu ≡ false) × (is_body c.recv_statu ≡ false)

body_state : (s : HttpRecvStatu) → (s ≡ HttpRecvStatu.recv_http_body) ⊎ (is_body s ≡ false)
body_state HttpRecvStatu.recv_http_err = inr refl
body_state HttpRecvStatu.recv_http_line = inr refl
body_state HttpRecvStatu.recv_http_head = inr refl
body_state HttpRecvStatu.recv_http_body = inl refl
body_state HttpRecvStatu.recv_http_over = inr refl

head_state : (s : HttpRecvStatu) → (s ≡ HttpRecvStatu.recv_http_head) ⊎ (is_head s ≡ false)
head_state HttpRecvStatu.recv_http_err = inr refl
head_state HttpRecvStatu.recv_http_line = inr refl
head_state HttpRecvStatu.recv_http_head = inl refl
head_state HttpRecvStatu.recv_http_body = inr refl
head_state HttpRecvStatu.recv_http_over = inr refl

From-body :
    (c : HttpContent) (b : Buffer)
    → IsValid b
    → From recv_from_body NotBody (λ d _. ThrowsBody d) c b
unfolding recv_from_body
From-body c b v = elim (body_state c.recv_statu) [
  | inl st ↦ elim (Option-cases (body_size c.request)) [
    | inl throws ↦ inl (rw (enter_body c b st, throws), (st, throws))
    | inr (n, size) ↦
        let (c', b', r, e, k) = on_body_total c b n v in
        inr (c', b', rw (enter_body c b st, size, e), k, λ o. absurd (let clash = rw st at o in cc))
  ]
  | inr other ↦
      inr (c, b, rw (recv_http_body, other), record { valid = v; shorter = omega arith }, λ o. refl)
]

-- The functions from the headers on.
From-head : (c : HttpContent) (b : Buffer) → IsValid b → From recv_from_head NotHead ThrowsHead c b
unfolding recv_from_head
From-head c b v = elim (head_state c.recv_statu) [
  | inl st ↦
      let size = read_size b v ∙ sym (length-contents b v) in
      let (c1, b1, r, e, k) =
        head_loop_total (suc (current_enable_read_space_size b)) c b v (omega (arith, size)) in
      elim (From-body c1 b1 k.valid) [
        | inl (throws, cause) ↦
            inl (rw (enter_head c b st, e, throws), (c1, b1, r, rw (enter_head c b st, e), cause))
        | inr (c', b', e', k', same) ↦ inr (
          c',
          b',
          rw (enter_head c b st, e, e'),
          record { valid = k'.valid; shorter = omega (arith, k.shorter, k'.shorter) },
          λ o. absurd (let clash = rw st at o.0 in cc),
        )
      ]
  | inr other ↦ elim (From-body c b v) [
    | inl (throws, cause) ↦
        inl (rw (recv_http_head, other, throws), (c, b, false, rw (recv_http_head, other), cause))
    | inr (c', b', e, k, same) ↦ inr (c', b', rw (recv_http_head, other, e), k, λ o. same o.1)
  ]
]

Waits-NotHead : (c : HttpContent) → Waits c → NotHead c
Waits-NotHead c (inl e) = (ap is_head e, ap is_body e)
Waits-NotHead c (inr e) = (ap is_head e, ap is_body e)

-- A call of the parser has returned: the buffer is valid and not longer, and a request that it
-- completes from the first state on has taken bytes out of it.
pub record Progress (c : HttpContent) (b : Buffer) (c' : HttpContent) (b' : Buffer) : Type 0 where
  pub kept : Kept b b'
  pub taken :
      c.recv_statu ≡ HttpRecvStatu.recv_http_line
      → c'.recv_statu ≡ HttpRecvStatu.recv_http_over
      → length (contents b') < length (contents b)

Waits-end : (c c' : HttpContent) → Waits c → c' ≡ c → c'.recv_statu ≢ HttpRecvStatu.recv_http_over
Waits-end c c' (inl e) same over =
    absurd (let clash = sym e ∙ ap (λ (x : HttpContent). x.recv_statu) (sym same) ∙ over in cc)
Waits-end c c' (inr e) same over =
    absurd (let clash = sym e ∙ ap (λ (x : HttpContent). x.recv_statu) (sym same) ∙ over in cc)

from_line :
    (c : HttpContent) (b : Buffer)
    → c.recv_statu ≡ HttpRecvStatu.recv_http_line
    → IsValid b
    → ((recv_from_line c b ≡ none) × Throws c b)
      ⊎ ((c' : HttpContent) × (b' : Buffer) × (recv_from_line c b ≡ some (c', b'))
          × Progress c b c' b')
unfolding recv_from_line
from_line c b st v =
    let (c1, b1, r, e, (k, next)) = recv_http_line_total c b st v in
    elim (From-head c1 b1 k.valid) [
      | inl (throws, cause) ↦ inl (rw (e, throws), (c1, b1, r, e, cause))
      | inr (c', b', e', k', same) ↦ inr (
        c',
        b',
        rw (e, e'),
        record {
          kept = record { valid = k'.valid; shorter = omega (arith, k.shorter, k'.shorter) };
          taken = λ _ over. elim next [
            | inl w ↦ absurd (Waits-end c1 c' w (same (Waits-NotHead c1 w)) over)
            | inr (_, less) ↦ omega (arith, less, k'.shorter)
          ];
        },
      )
    ]

stays :
    (c : HttpContent) (b : Buffer)
    → IsValid b
    → c.recv_statu ≢ HttpRecvStatu.recv_http_line
    → Progress c b c b
stays c b v other = record {
  kept = record { valid = v; shorter = omega arith };
  taken = λ st over. absurd (other st);
}

Outcome : HttpContent → Buffer → Option (HttpContent × Buffer) → Type 0
Outcome c b o =
    ((o ≡ none) × Throws c b)
    ⊎ ((c' : HttpContent) × (b' : Buffer) × (o ≡ some (c', b')) × Progress c b c' b')

later :
    (f : HttpContent → Buffer → Option (HttpContent × Buffer)) (Other : HttpContent → Type 0)
    (Fails : HttpContent → Buffer → Type 0) (c : HttpContent) (b : Buffer)
    → c.recv_statu ≢ HttpRecvStatu.recv_http_line
    → (Fails c b → Throws c b)
    → From f Other Fails c b
    → Outcome c b (f c b)
unfolding Outcome
later f Other Fails c b other why (inl (e, cause)) = inl (e, why cause)
later f Other Fails c b other why (inr (c', b', e, k, same)) =
    inr (c', b', e, record { kept = k; taken = λ st over. absurd (other st) })

-- Both functions do nothing outside their state.
past_line :
    (c : HttpContent) (b : Buffer)
    → is_line c.recv_statu ≡ false
    → recv_http_line c b ≡ some (c, b, false)
unfolding recv_http_line
past_line c b h = rw h

past_head :
    (c : HttpContent) (b : Buffer)
    → is_head c.recv_statu ≡ false
    → recv_http_head c b ≡ some (c, b, false)
unfolding recv_http_head
past_head c b h = rw h

by_state :
    (c : HttpContent) (b : Buffer) (s : HttpRecvStatu)
    → IsValid b
    → c.recv_statu ≡ s
    → Outcome c b (recv_http_request c b)
unfolding recv_http_request Outcome
by_state c b HttpRecvStatu.recv_http_line v st =
    let enter : recv_http_request c b ≡ recv_from_line c b = ground arith in
    rw enter (from_line c b st v)
by_state c b HttpRecvStatu.recv_http_head v st =
    let enter : recv_http_request c b ≡ recv_from_head c b = ground arith in
    rw enter (
      later recv_from_head NotHead ThrowsHead c b (λ e. cc)
        (λ t. (c, b, false, past_line c b (ap is_line st), t)) (From-head c b v))
by_state c b HttpRecvStatu.recv_http_body v st =
    let enter : recv_http_request c b ≡ recv_from_body c b = ground arith in
    rw enter (
      later recv_from_body NotBody (λ d _. ThrowsBody d) c b (λ e. cc)
        (λ t. (
          c,
          b,
          false,
          past_line c b (ap is_line st),
          (c, b, false, past_head c b (ap is_head st), t),
        ))
        (From-body c b v))
by_state c b HttpRecvStatu.recv_http_err v st =
    let enter : recv_http_request c b ≡ some (c, b) = ground arith in
    inr (c, b, enter, stays c b v (λ e. cc))
by_state c b HttpRecvStatu.recv_http_over v st =
    let enter : recv_http_request c b ≡ some (c, b) = ground arith in
    inr (c, b, enter, stays c b v (λ e. cc))

-- `RecvHttpRequest` on a valid buffer, in any state, either returns, with a valid buffer that is not
-- longer, or it fails, and then only because `RecvHttpLine` and `RecvHttpHead` have returned, the
-- parser waits for a body, and `std::stol` throws on its Content-Length. A request that one call
-- completes from the first state on has taken bytes.
pub recv_http_request-Progress :
    (c : HttpContent) (b : Buffer)
    → IsValid b
    → ((recv_http_request c b ≡ none) × Throws c b)
      ⊎ ((c' : HttpContent) × (b' : Buffer) × (recv_http_request c b ≡ some (c', b'))
          × Progress c b c' b')
unfolding Outcome
recv_http_request-Progress c b v = by_state c b c.recv_statu v refl
