-- ===== src/Http/Content/Body.antt =====
-- RecvHttpBody: the body grows by what has arrived, up to its declared length.
use high_concurrency_server.Common.{
  ◌>>=◌, ℕ, ◌+◌, ◌-◌, ◌≤◌, ◌<◌, ◌≡◌, ◌∙◌, refl, sym, ap, true, false, some, ◌++◌, Bytes, length,
  take, drop, arith, leb, ◌==◌, if◌then◌else◌, inl, inr, Bool-cases, le→leb, leb→le, leb_false→lt,
  leb-false, sub64, sub64_lem, u64_mod, take_all, drop_all,
}
use high_concurrency_server.Buffer.{Buffer, current_enable_read_space_size}
use high_concurrency_server.Buffer.Inv.{IsValid, contents, read_size, length-contents}
use high_concurrency_server.Buffer.Read.{Pops, move_read_position-Pops, copy_prefix}
use high_concurrency_server.Http.Statu.{HttpRecvStatu}
use high_concurrency_server.Http.Request.{body_size}
use high_concurrency_server.Http.Content.{HttpContent, take_body, recv_http_body, on_body}

-- The parser with `d` at the end of its body.
abbrev pub with_body : HttpContent → Bytes → HttpContent
with_body c d = record c { request = record c.request { body = c.request.body ++ d } }

pub take_body_lem :
    (c : HttpContent) (b : Buffer) (n : ℕ)
    → IsValid b
    → n ≤ length (contents b)
    → (b' : Buffer) × (take_body c b n ≡ some (with_body c (take n (contents b)), b')) × Pops b n b'
unfolding take_body
take_body_lem c b n v h =
    let (b', e, p) = move_read_position-Pops b n v h in (b', rw (copy_prefix b n v h, e), p)

-- What `RecvHttpBody` leaves when `n` bytes are declared.
pub record BodyTaken (c : HttpContent) (b : Buffer) (n : ℕ) (c' : HttpContent) (b' : Buffer)
    : Type 0 where
  pub valid : IsValid b'
  pub body : c'.request.body ≡ c.request.body ++ take (n - length c.request.body) (contents b)
  pub rest : contents b' ≡ drop (n - length c.request.body) (contents b)
  pub state : c'.recv_statu ≡ (
      if leb n (length c.request.body + length (contents b))
      then HttpRecvStatu.recv_http_over
      else HttpRecvStatu.recv_http_body)
  pub status : c'.resq_statu ≡ c.resq_statu
  pub method : c'.request.method ≡ c.request.method
  pub path : c'.request.path ≡ c.request.path

pub enter_body :
    (c : HttpContent) (b : Buffer)
    → c.recv_statu ≡ HttpRecvStatu.recv_http_body
    → recv_http_body c b ≡ (body_size c.request >>= λ k. on_body c b k)
unfolding recv_http_body
enter_body c b st = ground arith

-- While the parser waits for a body of `n` bytes, of which some are still missing, `RecvHttpBody`
-- succeeds: it moves the readable bytes, but not more than are missing, to the end of the body;
-- what it does not need stays readable; and the request is complete exactly when the body has its
-- declared length.
pub recv_http_body-BodyTaken :
    (c : HttpContent) (b : Buffer) (n : ℕ)
    → c.recv_statu ≡ HttpRecvStatu.recv_http_body
    → body_size c.request ≡ some n
    → length c.request.body < n
    → n < u64_mod
    → IsValid b
    → (c' : HttpContent) × (b' : Buffer) × (recv_http_body c b ≡ some (c', b', true))
      × BodyTaken c b n c' b'
unfolding on_body
recv_http_body-BodyTaken c b n st size missing small v =
    elim (Bool-cases (leb need (length (contents b)))) [
      | inl enough ↦
          let (b', e, p) = take_body_lem c b need v (leb→le _ _ enough) in
          (
            record (with_body c (take need (contents b))) {
              recv_statu = HttpRecvStatu.recv_http_over;
            },
            b',
            enter ∙ rw (size, on_body, nonzero, left, readable, enough, e),
            record {
              valid = p.valid;
              body = refl;
              rest = p.rest;
              state = rw (
                  le→leb n (length c.request.body + length (contents b))
                    (omega (arith, leb→le _ _ enough)));
              status = refl;
              method = refl;
              path = refl;
            },
          )
      | inr short ↦
          let few : length (contents b) ≤ need = omega (arith, leb_false→lt _ _ short) in
          let (b', e, p) = take_body_lem c b (length (contents b)) v (omega arith) in
          (
            with_body c (take (length (contents b)) (contents b)),
            b',
            enter ∙ rw (size, on_body, nonzero, left, readable, short, e),
            record {
              valid = p.valid;
              body =
                  ap (λ t. c.request.body ++ t)
                    (take_all (length (contents b)) (contents b) (omega arith)
                      ∙ sym (take_all need (contents b) few));
              rest =
                  p.rest
                  ∙ drop_all (length (contents b)) (contents b) (omega arith)
                  ∙ sym (drop_all need (contents b) few);
              state =
                  rw
                    (leb-false n (length c.request.body + length (contents b))
                      (omega (arith, leb_false→lt _ _ short)))
                    st;
              status = refl;
              method = refl;
              path = refl;
            },
          )
    ]
  where
    enter : recv_http_body c b ≡ (body_size c.request >>= λ k. on_body c b k)
    enter = enter_body c b st

    need : ℕ
    need = n - length c.request.body

    nonzero : (n == 0) ≡ false
    nonzero = ground arith

    left : sub64 n (length c.request.body) ≡ n - length c.request.body
    left = sub64_lem n (length c.request.body) (omega arith) small

    readable : current_enable_read_space_size b ≡ length (contents b)
    readable = read_size b v ∙ sym (length-contents b v)
