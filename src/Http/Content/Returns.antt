-- ===== src/Http/Content/Returns.antt =====
-- The loops and steps of the receiving functions return on every valid buffer, and put nothing back.
use high_concurrency_server.Common.{
  ℕ, zero, suc, ◌≤◌, ◌<◌, ◌≡◌, ◌∙◌, refl, sym, ap, true, false, Bool, some, length, take, arith,
  leb, ltb, ◌==◌, ◌⊎◌, inl, inr, Bool-cases, length-drop, leb→le, sub64,
}
use high_concurrency_server.Buffer.{Buffer, current_enable_read_space_size}
use high_concurrency_server.Buffer.Inv.{IsValid, contents, read_size, length-contents}
use high_concurrency_server.Buffer.Read.{Pops}
use high_concurrency_server.Http.Statu.{HttpRecvStatu}
use high_concurrency_server.Http.Content.{
  HttpContent, returned, fail, max_line, no_line, on_line, recv_http_line, is_blank, on_head,
  head_loop, on_body,
}
use high_concurrency_server.Http.Content.Line.{enter_line}
use high_concurrency_server.Http.Content.Body.{take_body_lem, with_body}
use high_concurrency_server.Http.Content.Lines.{
  next_line, parse_http_line_total, parse_http_head_total,
}

-- A state in which the functions behind `RecvHttpLine` do nothing, and which is not the last one.
abbrev pub Waits : HttpContent → Type 0
Waits c =
    (c.recv_statu ≡ HttpRecvStatu.recv_http_line) ⊎ (c.recv_statu ≡ HttpRecvStatu.recv_http_err)

-- What a receiving function leaves: a valid buffer that is not longer.
pub record Kept (b b' : Buffer) : Type 0 where
  pub valid : IsValid b'
  pub shorter : length (contents b') ≤ length (contents b)

-- `RecvHttpLine` in its state: either it has read a line and the headers come next, or the request
-- does not go on.
abbrev pub LineRead : Buffer → HttpContent → Buffer → Type 0
LineRead b c' b' =
    Kept b b'
    × (Waits c'
        ⊎ ((c'.recv_statu ≡ HttpRecvStatu.recv_http_head)
            × (length (contents b') < length (contents b))))

pub recv_http_line_total :
    (c : HttpContent) (b : Buffer)
    → c.recv_statu ≡ HttpRecvStatu.recv_http_line
    → IsValid b
    → (c' : HttpContent) × (b' : Buffer) × (r : Bool) × (recv_http_line c b ≡ some (c', b', r))
      × LineRead b c' b'
unfolding on_line no_line
recv_http_line_total c b st v = elim (next_line b v) [
  | inl e ↦ elim (Bool-cases (ltb max_line (current_enable_read_space_size b))) [
    | inl long ↦ (
      fail c 414,
      b,
      false,
      enter_line c b st ∙ rw (e, long),
      (record { valid = v; shorter = omega arith }, inl (inr refl)),
    )
    | inr short ↦ (
      c,
      b,
      true,
      enter_line c b st ∙ rw (e, short),
      (record { valid = v; shorter = omega arith }, inl (inl st)),
    )
  ]
  | inr (line, b', e, g) ↦
      let some_bytes : (length line == 0) ≡ false = ground (arith, g.some_bytes) in
      let kept : Kept b b' = record { valid = g.valid; shorter = omega (arith, g.shorter) } in
      elim (Bool-cases (ltb max_line (length line))) [
        | inl long ↦ (
          fail c 414,
          b',
          false,
          enter_line c b st ∙ rw (e, some_bytes, long),
          (kept, inl (inr refl)),
        )
        | inr fits ↦
            let (d, r, p) = parse_http_line_total c line in
            (
              record d { recv_statu = HttpRecvStatu.recv_http_head },
              b',
              r,
              enter_line c b st ∙ rw (e, some_bytes, fits, p),
              (kept, inr (refl, omega (arith, g.shorter, g.some_bytes))),
            )
      ]
]

-- With more rounds than there are readable bytes the loop over the header lines returns: every round
-- that goes on has read a line.
pub head_loop_total :
    (fuel : ℕ) (c : HttpContent) (b : Buffer)
    → IsValid b
    → length (contents b) < fuel
    → (c' : HttpContent) × (b' : Buffer) × (r : Bool) × (head_loop fuel c b ≡ returned (c', b', r))
      × Kept b b'
unfolding head_loop on_head no_line
head_loop_total zero c b v h = absurd (omega arith)
head_loop_total (suc fuel) c b v h = elim (next_line b v) [
  | inl e ↦ elim (Bool-cases (ltb max_line (current_enable_read_space_size b))) [
    | inl long ↦ (fail c 414, b, false, rw (e, long), record { valid = v; shorter = omega arith })
    | inr short ↦ (c, b, true, rw (e, short), record { valid = v; shorter = omega arith })
  ]
  | inr (line, b', e, g) ↦
      let some_bytes : (length line == 0) ≡ false = ground (arith, g.some_bytes) in
      let kept : Kept b b' = record { valid = g.valid; shorter = omega (arith, g.shorter) } in
      elim (Bool-cases (ltb max_line (length line))) [
        | inl long ↦ (fail c 414, b', false, rw (e, some_bytes, long), kept)
        | inr fits ↦ elim (Bool-cases (is_blank line)) [
          | inl blank ↦ (
            record c { recv_statu = HttpRecvStatu.recv_http_body },
            b',
            true,
            rw (e, some_bytes, fits, blank),
            kept,
          )
          | inr text ↦
              let (d, r, p) = parse_http_head_total c line g.some_bytes text in
              elim (Bool-cases r) [
                | inl good ↦
                    let (c', b'', r', q, k) =
                      head_loop_total fuel d b' g.valid (omega (arith, g.shorter, g.some_bytes)) in
                    (
                      c',
                      b'',
                      r',
                      rw (e, some_bytes, fits, text, p, good) q,
                      record { valid = k.valid; shorter = omega (arith, k.shorter, g.shorter) },
                    )
                | inr bad ↦ (d, b', false, rw (e, some_bytes, fits, text, p, bad), kept)
              ]
        ]
      ]
]

popped : (b b' : Buffer) (n : ℕ) → Pops b n b' → Kept b b'
popped b b' n p = record {
  valid = p.valid;
  shorter = omega (arith, ap length p.rest ∙ length-drop n (contents b));
}

-- `RecvHttpBody` with a length that was declared.
pub on_body_total :
    (c : HttpContent) (b : Buffer) (n : ℕ)
    → IsValid b
    → (c' : HttpContent) × (b' : Buffer) × (r : Bool) × (on_body c b n ≡ some (c', b', r))
      × Kept b b'
unfolding on_body
on_body_total c b n v = elim (Bool-cases (n == 0)) [
  | inl none_due ↦ (
    record c { recv_statu = HttpRecvStatu.recv_http_over },
    b,
    true,
    rw none_due,
    record { valid = v; shorter = omega arith },
  )
  | inr due ↦
      let size = read_size b v ∙ sym (length-contents b v) in
      elim (Bool-cases (leb (sub64 n (length c.request.body)) (current_enable_read_space_size b))) [
        | inl enough ↦
            let (b', e, p) =
              take_body_lem c b (sub64 n (length c.request.body)) v
                (omega (arith, size, leb→le _ _ enough)) in
            (
              record (with_body c (take (sub64 n (length c.request.body)) (contents b))) {
                recv_statu = HttpRecvStatu.recv_http_over;
              },
              b',
              true,
              rw (due, enough, e),
              popped b b' _ p,
            )
        | inr short ↦
            let (b', e, p) =
              take_body_lem c b (current_enable_read_space_size b) v (omega (arith, size)) in
            (
              with_body c (take (current_enable_read_space_size b) (contents b)),
              b',
              true,
              rw (due, short, e),
              popped b b' _ p,
            )
      ]
]
