-- ===== src/Http/Content/Whole.antt =====
-- RecvHttpBody on a body that has arrived as a whole.
use high_concurrency_server.Common.{
  ◌+◌, ◌-◌, ◌<◌, ◌≡◌, ◌∙◌, refl, true, some, [], ◌∷◌, ◌++◌, Bytes, length, take, drop, arith,
  if◌then◌else◌, leb, le→leb, length-append, take-append_length, drop-append_length, u64_mod,
}
use high_concurrency_server.Buffer.{Buffer}
use high_concurrency_server.Buffer.Inv.{IsValid, contents}
use high_concurrency_server.Http.Statu.{HttpRecvStatu}
use high_concurrency_server.Http.Request.{body_size}
use high_concurrency_server.Http.Content.{HttpContent, on_body, recv_http_body}
use high_concurrency_server.Http.Content.Body.{enter_body, recv_http_body-BodyTaken}

-- A body that arrives at once, in front of other bytes, is taken as it is.
taken_whole :
    (c c' : HttpContent) (b b' : Buffer) (body rest have all : Bytes)
    → have ≡ []
    → all ≡ body ++ rest
    → (c'.request.body ≡ have ++ take (length body - length have) all)
    → (contents b' ≡ drop (length body - length have) all)
    → (c'.recv_statu ≡ (
        if leb (length body) (length have + length all)
        then HttpRecvStatu.recv_http_over
        else HttpRecvStatu.recv_http_body))
    → (c'.request.body ≡ body)
      × (contents b' ≡ rest)
      × (c'.recv_statu ≡ HttpRecvStatu.recv_http_over)
taken_whole c c' b b' body rest have all none_yet arrived taken left state = (
  taken ∙ rw (none_yet, arrived) (take-append_length (length body - 0) body rest (omega arith)),
  left ∙ rw (none_yet, arrived) (drop-append_length (length body - 0) body rest (omega arith)),
  state
      ∙ rw (
        none_yet,
        arrived,
        length-append body rest,
        le→leb (length body) (0 + (length body + length rest)) (omega arith),
      ),
)

-- `RecvHttpBody` when no body is declared.
body_empty :
    (c : HttpContent) (b : Buffer)
    → c.recv_statu ≡ HttpRecvStatu.recv_http_body
    → body_size c.request ≡ some 0
    → recv_http_body c b ≡ some (record c { recv_statu = HttpRecvStatu.recv_http_over }, b, true)
unfolding on_body
body_empty c b st size = enter_body c b st ∙ rw size refl

-- What `RecvHttpBody` leaves behind the headers of a message.
pub record Filled (c : HttpContent) (body rest : Bytes) (c' : HttpContent) (b' : Buffer)
    : Type 0 where
  pub complete : c'.recv_statu ≡ HttpRecvStatu.recv_http_over
  pub status : c'.resq_statu ≡ c.resq_statu
  pub method : c'.request.method ≡ c.request.method
  pub path : c'.request.path ≡ c.request.path
  pub taken : c'.request.body ≡ body
  pub valid : IsValid b'
  pub left : contents b' ≡ rest

pub filled :
    (c : HttpContent) (b : Buffer) (body rest : Bytes)
    → c.recv_statu ≡ HttpRecvStatu.recv_http_body
    → c.request.body ≡ []
    → body_size c.request ≡ some (length body)
    → length body < u64_mod
    → IsValid b
    → contents b ≡ body ++ rest
    → (c' : HttpContent) × (b' : Buffer) × (recv_http_body c b ≡ some (c', b', true))
      × Filled c body rest c' b'
filled c b [] rest st fresh size small v e = (
  record c { recv_statu = HttpRecvStatu.recv_http_over },
  b,
  body_empty c b st size,
  record {
    complete = refl;
    status = refl;
    method = refl;
    path = refl;
    taken = fresh;
    valid = v;
    left = e;
  },
)
filled c b (x ∷ body) rest st fresh size small v e =
    let (c', b', done, t) =
      recv_http_body-BodyTaken c b (length (x ∷ body)) st size (rw fresh (omega arith)) small v in
    let whole =
      taken_whole c c' b b' (x ∷ body) rest c.request.body (contents b) fresh e t.body t.rest
        t.state in
    (
      c',
      b',
      done,
      record {
        complete = whole.2;
        status = t.status;
        method = t.method;
        path = t.path;
        taken = whole.0;
        valid = t.valid;
        left = whole.1;
      },
    )
