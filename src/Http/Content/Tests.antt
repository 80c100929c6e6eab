-- ===== src/Http/Content/Tests.antt =====
-- Requests in a buffer.
use high_concurrency_server.Common.{
  ◌⊎◌, ◌≡◌, refl, some, none, List, [], ◌∷◌, ◌++◌, Bytes, codes, length, arith, true, false,
}
use high_concurrency_server.Buffer.{Buffer, lf}
use high_concurrency_server.Buffer.Inv.{IsValid, contents}
use high_concurrency_server.Http.Statu.{HttpRecvStatu}
use high_concurrency_server.Http.Headers.{insert, find}
use high_concurrency_server.Http.Request.{
  HttpRequest, body_size, set_header, get_header, has_header, stol, stol_sign, stol_digits, digits,
}
use high_concurrency_server.Http.Request
use high_concurrency_server.Http.RequestLine.{match_line, any_literal}
use high_concurrency_server.Http.RequestLine.Laws.{Method}
use high_concurrency_server.Http.Content.Progress.{Throws, Progress, recv_http_request-Progress}
use high_concurrency_server.Http.Content.{
  HttpContent, init, recv_http_line, recv_http_body, recv_http_request,
}
use high_concurrency_server.Http.Content.Line.{recv_http_line_mismatch}
use high_concurrency_server.Http.Content.Head.{with_headers}
use high_concurrency_server.Http.Content.Body.{BodyTaken, recv_http_body-BodyTaken}
use high_concurrency_server.Http.Content.Machine.{IsParsed, lined, recv_http_request-IsParsed}

-- A buffer that holds exactly these bytes.
abbrev holding : Bytes → Buffer
holding s = record { buffer = s; read_index = 0; write_index = length s }

abbrev message : Bytes
message = codes "POST /up HTTP/1.1\r\nContent-Length: 5\r\n\r\nhello!"

abbrev headers : List (Bytes × Bytes)
headers = (codes "Content-Length", codes "5") ∷ []

message-IsValid : IsValid (holding message)
message-IsValid = record { ordered = omega arith; within = omega arith; bounded = omega arith }

start : init.recv_statu ≡ HttpRecvStatu.recv_http_line
start = unfold init in refl

declared :
    body_size (with_headers (lined init Method.post (codes "/up") b'1') headers).request ≡ some 5
unfolding body_size stol stol_sign stol_digits digits set_header get_header has_header insert find
    init high_concurrency_server.Http.Headers.get high_concurrency_server.Http.Headers.has
    Request.init
declared = refl

recv_http_request-IsParsed_example :
    (c : HttpContent) × (b' : Buffer) × (recv_http_request init (holding message) ≡ some (c, b'))
    × IsParsed Method.post (codes "/up") (codes "hello") c
    × IsValid b'
    × (contents b' ≡ codes "!")
recv_http_request-IsParsed_example =
    recv_http_request-IsParsed Method.post b'/' (codes "up") b'1' headers (codes "hello")
      (codes "!") (holding message) (refl, (refl, (refl, tt))) (omega arith) refl (omega arith)
      ((omega arith, omega arith, omega arith, omega arith), tt) declared (omega arith)
      message-IsValid refl

-- A parser that has read the headers of the message, or part of its body.
abbrev waiting : Bytes → HttpContent
waiting part = record (with_headers (lined init Method.post (codes "/up") b'1') headers) {
  recv_statu = HttpRecvStatu.recv_http_body;
  request = record (with_headers (lined init Method.post (codes "/up") b'1') headers).request {
    body = part;
  };
}

waiting_size : (part : Bytes) → body_size (waiting part).request ≡ some 5
unfolding body_size stol stol_sign stol_digits digits set_header get_header has_header insert find
    init high_concurrency_server.Http.Headers.get high_concurrency_server.Http.Headers.has
    Request.init
waiting_size part = refl

rest-IsValid : IsValid (holding (codes "lo!"))
rest-IsValid = record { ordered = omega arith; within = omega arith; bounded = omega arith }

recv_http_body-BodyTaken_example :
    (c' : HttpContent) × (b' : Buffer) × (recv_http_body
        (waiting (codes "hel"))
        (holding (codes "lo!"))
      ≡ some (c', b', true))
    × BodyTaken (waiting (codes "hel")) (holding (codes "lo!")) 5 c' b'
recv_http_body-BodyTaken_example =
    recv_http_body-BodyTaken (waiting (codes "hel")) (holding (codes "lo!")) 5 refl
      (waiting_size (codes "hel")) (omega arith) (omega arith) rest-IsValid

abbrev head_bytes : Bytes
head_bytes = codes "Content-Length: 5\r\n\r\nhello"

head_bytes-IsValid : IsValid (holding head_bytes)
head_bytes-IsValid = record { ordered = omega arith; within = omega arith; bounded = omega arith }

abbrev heading : HttpContent
heading = record init { recv_statu = HttpRecvStatu.recv_http_head }

-- Half a request line.
abbrev half : Bytes
half = codes "GET /inde"

half-IsValid : IsValid (holding half)
half-IsValid = record { ordered = omega arith; within = omega arith; bounded = omega arith }

-- A method that the server does not know, with a header behind it.
abbrev bad : Bytes
bad = codes "BREW /pot HTTP/1.1\r\nHost: h\r\n"

bad-IsValid : IsValid (holding bad)
bad-IsValid = record { ordered = omega arith; within = omega arith; bounded = omega arith }

bad_mismatch : match_line (codes "BREW /pot HTTP/1.1\r" ++ lf ∷ []) ≡ none
unfolding match_line any_literal
bad_mismatch = refl

recv_http_line_mismatch_example :
    (c' : HttpContent) × (b' : Buffer) × (recv_http_line init (holding bad) ≡ some (c', b', false))
    × (c'.resq_statu ≡ 400)
    × (c'.recv_statu ≡ HttpRecvStatu.recv_http_head)
    × (contents b' ≡ codes "Host: h\r\n")
recv_http_line_mismatch_example =
    recv_http_line_mismatch init (holding bad) (codes "BREW /pot HTTP/1.1\r") (codes "Host: h\r\n")
      start bad-IsValid refl (omega arith) (omega arith) bad_mismatch

recv_http_request-Progress_example :
    ((recv_http_request heading (holding head_bytes) ≡ none) × Throws heading (holding head_bytes))
    ⊎ ((c' : HttpContent) × (b' : Buffer) × (recv_http_request heading (holding head_bytes)
          ≡ some (c', b'))
        × Progress heading (holding head_bytes) c' b')
recv_http_request-Progress_example =
    recv_http_request-Progress heading (holding head_bytes) head_bytes-IsValid
