-- ===== src/Util/Url/Tests.antt =====
-- URL components with bytes that must be escaped.
use high_concurrency_server.Common.{◌≡◌, true, Bytes, arith, ◌∷◌, []}
use high_concurrency_server.Util.Url.{url_en_code, url_decode}
use high_concurrency_server.Util.Url.Laws.{url_decode-url_en_code}

-- "a +", the byte 255, "/"
abbrev component : Bytes
component = b'a' ∷ b' ' ∷ b'+' ∷ 255 ∷ b'/' ∷ []

url_decode-url_en_code_example : url_decode (url_en_code component true) true ≡ component
url_decode-url_en_code_example =
    url_decode-url_en_code component true
      (omega arith, (omega arith, (omega arith, (omega arith, (omega arith, tt)))))
