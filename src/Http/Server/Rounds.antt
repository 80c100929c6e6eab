-- ===== src/Http/Server/Rounds.antt =====
-- The rounds of OnMessage: each one that goes on has taken bytes out of the buffer.
use high_concurrency_server.Common.{
  ℕ, zero, suc, ◌+◌, ◌∙◌, [], ◌||◌, ◌⊎◌, drop_all, ◌≤◌, ◌<◌, ◌≡◌, refl, sym, ap, Bool, true, false,
  Option, none, some, List, ◌++◌, Bytes, length, leb, ◌==◌, if◌then◌else◌, arith, inl, inr,
  Bool-cases, Option-cases, some-cancel,
}
use high_concurrency_server.Buffer.{Buffer, current_enable_read_space_size}
use high_concurrency_server.Buffer.Inv.{IsValid, contents, read_size, length-contents}
use high_concurrency_server.Buffer.Read.{move_read_position-Pops}
use high_concurrency_server.Http.Writer.{write_response}
use high_concurrency_server.Http.Server.Routes.{route_fails}
use high_concurrency_server.Http.Files.{FileSystem}
use high_concurrency_server.Http.Response
use high_concurrency_server.Http.Statu.{HttpRecvStatu}
use high_concurrency_server.Http.Content.{HttpContent, reset, recv_http_request}
use high_concurrency_server.Http.Content.Progress.{Throws, Progress, recv_http_request-Progress}
use high_concurrency_server.Http.Server.{
  HttpServer, Round, Served, ended, failed, marked, eerr_hander, is_over, refuse, answer, route,
  on_request, round, on_message,
}

over_state : (s : HttpRecvStatu) → is_over s ≡ true → s ≡ HttpRecvStatu.recv_http_over
over_state HttpRecvStatu.recv_http_err e = absurd cc
over_state HttpRecvStatu.recv_http_line e = absurd cc
over_state HttpRecvStatu.recv_http_head e = absurd cc
over_state HttpRecvStatu.recv_http_body e = absurd cc
over_state HttpRecvStatu.recv_http_over e = refl

module _ (R : Type 0) (match : R → Bytes → Option (List Bytes)) (fs : FileSystem) where
  -- A bad request is refused: the parser is reset, and nothing is left in the buffer.
  refuse_lem :
      (s : HttpServer R match fs) (c : HttpContent) (b : Buffer)
      → IsValid b
      → (b' : Buffer) × (refuse R match fs s c b
          ≡ some (record {
            content = reset c;
            buffer = b';
            sent =
                (write_response c.request
                  (eerr_hander R match fs s (Response.init c.resq_statu))).0;
            shut = true;
            again = false;
          }))
        × IsValid b'
        × (contents b' ≡ [])
  unfolding refuse
  refuse_lem s c b v =
      let size = read_size b v ∙ sym (length-contents b v) in
      let (b', e, p) =
        move_read_position-Pops b (current_enable_read_space_size b) v (omega (arith, size)) in
      (
        b',
        rw e,
        p.valid,
        p.rest ∙ drop_all (current_enable_read_space_size b) (contents b) (omega (arith, size)),
      )

  reset_line : (c : HttpContent) → (reset c).recv_statu ≡ HttpRecvStatu.recv_http_line
  unfolding reset
  reset_line c = refl

  -- An answer resets the parser and leaves the buffer alone.
  answer_lem :
      (s : HttpServer R match fs) (c : HttpContent) (b : Buffer) (r : Round R match fs)
      → answer R match fs s c b ≡ some r
      → (r.content.recv_statu ≡ HttpRecvStatu.recv_http_line) × (r.buffer ≡ b)
  unfolding answer reset
  answer_lem s c b r e =
      elim (Option-cases (route R match fs s c.request (Response.init c.resq_statu))) [
        | inl stuck ↦ absurd (let clash = rw stuck at e in cc)
        | inr (q, routed) ↦
            let same = sym (some-cancel (rw routed at e)) in
            (
              ap (λ (x : Round R match fs). x.content.recv_statu) same,
              ap (λ (x : Round R match fs). x.buffer) same,
            )
      ]

  answer_fails :
      (s : HttpServer R match fs) (c : HttpContent) (b : Buffer)
      → answer R match fs s c b ≡ none
      → route R match fs s c.request (Response.init c.resq_statu) ≡ none
  unfolding answer
  answer_fails s c b e =
      elim (Option-cases (route R match fs s c.request (Response.init c.resq_statu))) [
        | inl stuck ↦ stuck
        | inr (q, routed) ↦ absurd (let clash = rw routed at e in cc)
      ]

  -- The loop goes on behind the round, or `Shutdown` calls `OnMessage` again.
  abbrev pub GoesOn : Round R match fs → Type 0
  GoesOn r = r.again || r.shut ≡ true

  -- Why `OnMessage` fails: in its first round, or behind rounds that have returned, `std::stol` throws
  -- in the parser, or a request without an error and with an empty path is complete.
  pub data Fails (s : HttpServer R match fs) : HttpContent → Buffer → Type 0 where
    throws : {c : HttpContent} {b : Buffer} → Throws c b → Fails s c b
    empty_path :
        {c c' : HttpContent} {b b' : Buffer}
        → recv_http_request c b ≡ some (c', b')
        → c'.recv_statu ≡ HttpRecvStatu.recv_http_over
        → c'.request.path ≡ []
        → Fails s c b
    later :
        {c : HttpContent} {b : Buffer} (r : Round R match fs)
        → round R match fs s c b ≡ some r
        → GoesOn r
        → Fails s r.content r.buffer
        → Fails s c b

  -- What a round leaves that goes on: the parser back in its first state, and a valid buffer that is
  -- not longer, and shorter if the round began in that state.
  record Next (c : HttpContent) (b : Buffer) (r : Round R match fs) : Type 0 where
    line : r.content.recv_statu ≡ HttpRecvStatu.recv_http_line
    valid : IsValid r.buffer
    shorter : length (contents r.buffer) ≤ length (contents b)
    less :
        c.recv_statu ≡ HttpRecvStatu.recv_http_line
        → length (contents r.buffer) < length (contents b)

  -- A round fails for its reason, or it returns, and what goes on is as above.
  abbrev RoundEnd : HttpServer R match fs → HttpContent → Buffer → Type 0
  RoundEnd s c b =
      ((round R match fs s c b ≡ none) × Fails s c b)
      ⊎ ((r : Round R match fs) × (round R match fs s c b ≡ some r) × (GoesOn r → Next c b r))

  round-answer :
      (s : HttpServer R match fs) (c c' : HttpContent) (b b' : Buffer)
      → recv_http_request c b ≡ some (c', b')
      → Progress c b c' b'
      → c'.recv_statu ≡ HttpRecvStatu.recv_http_over
      → round R match fs s c b ≡ answer R match fs s c' b'
      → RoundEnd s c b
  round-answer s c c' b b' parsed p over enter = elim (Option-cases (answer R match fs s c' b')) [
    | inl fails ↦ inl (
      enter ∙ fails,
      Fails.empty_path parsed over
          (route_fails R match fs s c'.request _ (answer_fails s c' b' fails)),
    )
    | inr (r, done) ↦
        let (line, same) = answer_lem s c' b' r done in
        inr (
          r,
          enter ∙ done,
          λ _. record {
            line = line;
            valid = rw same p.kept.valid;
            shorter = rw same p.kept.shorter;
            less = λ st. rw same (p.taken st over);
          },
        )
  ]

  -- A round on a buffer that is not empty.
  round_end :
      (s : HttpServer R match fs) (c : HttpContent) (b : Buffer)
      → IsValid b
      → 0 < length (contents b)
      → RoundEnd s c b
  unfolding round on_request
  round_end s c b v filled = elim (recv_http_request-Progress c b v) [
    | inl (fails, cause) ↦ inl (rw fails refl, Fails.throws cause)
    | inr (c', b', parsed, p) ↦ elim (Bool-cases (leb 400 c'.resq_statu)) [
      | inl bad ↦
          let (b2, e, valid, left) = refuse_lem s c' b' p.kept.valid in
          let none_left : length (contents b2) ≡ 0 = ap length left in
          inr (
            record {
              content = reset c';
              buffer = b2;
              sent =
                  (write_response c'.request
                    (eerr_hander R match fs s (Response.init c'.resq_statu))).0;
              shut = true;
              again = false;
            },
            rw (parsed, on_request, bad) e,
            λ _. record {
              line = reset_line c';
              valid = valid;
              shorter = omega (arith, none_left);
              less = λ _. omega (arith, none_left, filled);
            },
          )
      | inr good ↦ elim (Bool-cases (is_over c'.recv_statu)) [
        | inl over ↦
            round-answer s c c' b b' parsed p (over_state c'.recv_statu over)
              (rw (parsed, on_request, good, over) refl)
        | inr waits ↦ inr (
          record { content = c'; buffer = b'; sent = []; shut = false; again = false },
          rw (parsed, on_request, good, waits) refl,
          λ g. absurd cc,
        )
      ]
    ]
  ]

  -- How `OnMessage` ends: it returns, or it fails for a reason.
  abbrev pub Ends : HttpServer R match fs → HttpContent → Buffer → Served R match fs → Type 0
  Ends s c b o = ((r : Round R match fs) × (o ≡ ended r)) ⊎ ((o ≡ failed) × Fails s c b)

  marked-Ends :
      (s : HttpServer R match fs) (c d : HttpContent) (b e : Buffer) (shut : Bool)
      (o : Served R match fs)
      → (Fails s d e → Fails s c b)
      → Ends s d e o
      → Ends s c b (marked R match fs shut o)
  marked-Ends s c d b e shut o why (inl (r, same)) =
      inl (record r { shut = shut || r.shut }, ap (marked R match fs shut) same)
  marked-Ends s c d b e shut o why (inr (same, cause)) =
      inr (ap (marked R match fs shut) same, why cause)

  chosen-Ends :
      (s : HttpServer R match fs) (c : HttpContent) (b : Buffer) (sent : Bytes)
      (r : Round R match fs) (rest : Served R match fs) (on : Bool)
      → round R match fs s c b ≡ some r
      → r.again || r.shut ≡ on
      → (on ≡ true → Ends s r.content r.buffer rest)
      → Ends s c b
          (if on then marked R match fs r.shut rest else ended (record r { sent = sent ++ r.sent }))
  chosen-Ends s c b sent r rest true e on h =
      marked-Ends s c r.content b r.buffer r.shut rest (Fails.later r e on) (h refl)
  chosen-Ends s c b sent r rest false e on h = inl (record r { sent = sent ++ r.sent }, refl)

  -- A round and what follows it.
  step-Ends :
      (fuel : ℕ) (s : HttpServer R match fs) (c : HttpContent) (b : Buffer) (sent : Bytes)
      → IsValid b
      → ((r : Round R match fs)
          → Next c b r
          → Ends s r.content r.buffer
              (on_message R match fs fuel s r.content r.buffer (sent ++ r.sent)))
      → Ends s c b (on_message R match fs (suc fuel) s c b sent)
  unfolding on_message
  step-Ends fuel s c b sent v h = elim (Bool-cases (current_enable_read_space_size b == 0)) [
    | inl empty ↦
        rw empty
          (inl (record { content = c; buffer = b; sent = sent; shut = false; again = false }, refl))
    | inr filled ↦
        let some_bytes : 0 < length (contents b) =
          ground (arith, read_size b v, length-contents b v) in
        elim (round_end s c b v some_bytes) [
          | inl (fails, cause) ↦ rw (filled, fails) (inr (refl, cause))
          | inr (r, done, next) ↦
              rw (filled, done)
                (chosen-Ends s c b sent r
                  (on_message R match fs fuel s r.content r.buffer (sent ++ r.sent))
                  (r.again || r.shut) done refl (λ on. h r (next on)))
        ]
  ]

  -- The loop from the first state of the parser.
  from_line-Ends :
      (fuel : ℕ) (s : HttpServer R match fs) (c : HttpContent) (b : Buffer) (sent : Bytes)
      → c.recv_statu ≡ HttpRecvStatu.recv_http_line
      → IsValid b
      → length (contents b) < fuel
      → Ends s c b (on_message R match fs fuel s c b sent)
  from_line-Ends zero s c b sent st v h = absurd (omega arith)
  from_line-Ends (suc fuel) s c b sent st v h = step-Ends fuel s c b sent v (λ r n.
      from_line-Ends fuel s r.content r.buffer (sent ++ r.sent) n.line n.valid
        (omega (arith, n.less st)))

  -- `OnMessage` on a valid buffer, whatever state its parser is in, returns, together with the calls of
  -- `OnMessage` that its `Shutdown` makes, or it fails for one of two reasons: behind rounds that have
  -- returned, `std::stol` throws on a Content-Length, or a request whose path is empty is complete.
  -- Two rounds more than there are readable bytes are enough, since each round that goes on, but
  -- perhaps the first, takes bytes out of the buffer.
  pub on_message-Ends :
      (fuel : ℕ) (s : HttpServer R match fs) (c : HttpContent) (b : Buffer) (sent : Bytes)
      → IsValid b
      → length (contents b) + 1 < fuel
      → Ends s c b (on_message R match fs fuel s c b sent)
  on_message-Ends zero s c b sent v h = absurd (omega arith)
  on_message-Ends (suc fuel) s c b sent v h = step-Ends fuel s c b sent v (λ r n.
      from_line-Ends fuel s r.content r.buffer (sent ++ r.sent) n.line n.valid
        (omega (arith, n.shorter)))
