-- ===== src/Http/RequestLine/Tests.antt =====
-- A request line with a query string.
use high_concurrency_server.Common.{◌≡◌, refl, some, [], ◌∷◌, codes, arith}
use high_concurrency_server.Http.RequestLine.{match_line, is_line_end}
use high_concurrency_server.Http.RequestLine.Laws.{Method, request_line, match_line-request_line}

match_line-request_line_example :
    match_line (request_line Method.get (b'/' ∷ codes "a") (some (codes "x=1")) b'1' (13 ∷ 10 ∷ []))
    ≡ some (record {
      method = codes "GET";
      path = codes "/a";
      search = codes "x=1";
      version = codes "HTTP/1.1";
    })
match_line-request_line_example =
    match_line-request_line Method.get b'/' (codes "a") (some (codes "x=1")) b'1' (13 ∷ 10 ∷ [])
      (refl, (refl, tt)) (refl, (refl, (refl, tt))) (omega arith) refl (unfold is_line_end in refl)
