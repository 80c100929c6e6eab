-- ===== src/Http/Writer/Answer.antt =====
-- WriteResponse: the length that a response declares, and what a HEAD request gets.
use high_concurrency_server.Common.{
  some-cancel, append_assoc, ◌++◌, bytes_eq→eq, ◌^◌, ◌<◌, ◌≡◌, ◌∙◌, refl, sym, ap, Bool, true,
  false, none, some, [], ◌∷◌, Bytes, codes, length, ◌==◌, if◌then◌else◌, inl, inr, Bool-cases,
  Option-cases, bytes_eq,
}
use high_concurrency_server.Http.Headers.{Headers, find, insert, has, find-insert_self}
use high_concurrency_server.Http.Headers
use high_concurrency_server.Util.Status.{statu_desc}
use high_concurrency_server.Http.Request.{HttpRequest, stol}
use high_concurrency_server.Http.Response.{HttpResponse, set_header, has_header, get_header}
use high_concurrency_server.Http.Writer.Decimal.{stol-to_string}
use high_concurrency_server.Http.Writer.{
  to_string, add_connection, add_length, add_type, add_location, complete, head_answer, set_missing,
  header_lines, write_response,
}

-- The header of the length.
abbrev pub content_length : Bytes
content_length = codes "Content-Length"

find-insert_ne :
    (m : Headers) (key val other : Bytes)
    → bytes_eq key other ≡ false
    → find (insert m key val) other ≡ find m other
unfolding find insert
find-insert_ne [] key val other h = rw h
find-insert_ne ((k, v) ∷ m) key val other h = elim (Bool-cases (bytes_eq k key)) [
  | inl same ↦ rw same
  | inr apart ↦ rw (apart, find-insert_ne m key val other h)
]

-- The length and the body are the same.
record IsSame (r r' : HttpResponse) : Type 0 where
  length_header : find r'.headers content_length ≡ find r.headers content_length
  same_body : r'.body ≡ r.body

set_header-IsSame :
    (r : HttpResponse) (key val : Bytes)
    → bytes_eq key content_length ≡ false
    → IsSame r (set_header r key val)
unfolding set_header
set_header-IsSame r key val h = record {
  length_header = find-insert_ne r.headers key val content_length h;
  same_body = refl;
}

set_missing-IsSame :
    (r : HttpResponse) (key val : Bytes)
    → bytes_eq key content_length ≡ false
    → IsSame r (set_missing r key val)
set_missing-IsSame r key val h = elim (Bool-cases (has_header r key)) [
  | inl there ↦ rw there (record { length_header = refl; same_body = refl })
  | inr missing ↦ rw missing (set_header-IsSame r key val h)
]

add_type-IsSame : (r : HttpResponse) → IsSame r (add_type r)
unfolding add_type
add_type-IsSame r = elim (Bool-cases (length r.body == 0)) [
  | inl empty ↦ rw empty (record { length_header = refl; same_body = refl })
  | inr some_bytes ↦ rw some_bytes (set_missing-IsSame r _ _ refl)
]

moved-IsSame :
    (r : HttpResponse) (moved : Bool)
    → IsSame r (if moved then set_header r (codes "Location") r.redirect else r)
moved-IsSame r true = set_header-IsSame r _ _ refl
moved-IsSame r false = record { length_header = refl; same_body = refl }

add_location-IsSame : (r : HttpResponse) → IsSame r (add_location r)
unfolding add_location
add_location-IsSame r = moved-IsSame r r.is_redirect

-- Whether a header is there is whether it is found.
has_missing :
    (r : HttpResponse) (key : Bytes) → find r.headers key ≡ none → has_header r key ≡ false
unfolding has_header
has_missing r key h = rw (has, h)

has_there :
    (r : HttpResponse) (key v : Bytes) → find r.headers key ≡ some v → has_header r key ≡ true
unfolding has_header
has_there r key v h = rw (has, h)

find_missing :
    (r : HttpResponse) (key : Bytes) → has_header r key ≡ false → find r.headers key ≡ none
find_missing r key h = elim (Option-cases (find r.headers key)) [
  | inl e ↦ e
  | inr (v, e) ↦ absurd (let there = has_there r key v e in cc)
]

get-find : (r : HttpResponse) (key v : Bytes) → find r.headers key ≡ some v → get_header r key ≡ v
unfolding get_header
get-find r key v h = rw (Headers.get, h)

get_missing : (r : HttpResponse) (key : Bytes) → find r.headers key ≡ none → get_header r key ≡ []
unfolding get_header
get_missing r key h = rw (Headers.get, h)

-- The length of a response that has none yet.
add_length_lem :
    (r : HttpResponse)
    → find r.headers content_length ≡ none
    → (find (add_length r).headers content_length ≡ some (to_string (length r.body)))
      × ((add_length r).body ≡ r.body)
unfolding add_length set_header
add_length_lem r h =
    rw (has_missing r content_length h)
      (find-insert_self r.headers content_length (to_string (length r.body)) ∙ rw h, refl)

-- "k: v\r\n"
abbrev pub line_of : Bytes → Bytes → Bytes
line_of k v = k ++ codes ": " ++ v ++ codes "\r\n"

-- The lines of headers that have a key hold the line of this key.
header_lines-find :
    (m : Headers) (key val : Bytes)
    → find m key ≡ some val
    → (before : Bytes) × (after : Bytes) × (header_lines m ≡ before ++ line_of key val ++ after)
unfolding find header_lines
header_lines-find [] key val h = absurd cc
header_lines-find ((k, v) ∷ m) key val h = elim (Bool-cases (bytes_eq k key)) [
  | inl same ↦
      let one : k ≡ key = bytes_eq→eq k key same in
      let two : v ≡ val = some-cancel (rw same at h) in ([], header_lines m, rw (one, two) refl)
  | inr apart ↦
      let (before, after, e) = header_lines-find m key val (rw apart at h) in
      (line_of k v ++ before, after, rw e (regroup (line_of k v) before (line_of key val) after))
]
  where
    regroup : (s b l r : Bytes) → s ++ (b ++ l ++ r) ≡ s ++ b ++ l ++ r
    regroup s b l r = sym (append_assoc s (b ++ l) r) ∙ ap (λ t. t ++ r) (sym (append_assoc s b l))

-- The text holds the line of a Content-Length among its lines, and ends with an empty line and the
-- body; the value of the line reads as the length of the body.
abbrev pub HasLength : Bytes → Bytes → Type 0
HasLength text body =
    (before : Bytes) × (value : Bytes) × (after : Bytes) × (text
      ≡ before ++ line_of content_length value ++ after ++ codes "\r\n" ++ body)
    × (stol value ≡ some (length body))

-- The lines of the headers stand in what is sent.
sent_with :
    (start before l after lines body : Bytes)
    → lines ≡ before ++ l ++ after
    → start ++ lines ++ codes "\r\n" ++ body ≡ start ++ before ++ l ++ after ++ codes "\r\n" ++ body
sent_with start before l after lines body e =
    ap (λ t. t ++ codes "\r\n" ++ body)
      (ap (λ t. start ++ t) e
        ∙ sym (append_assoc start (before ++ l) after)
        ∙ ap (λ t. t ++ after) (sym (append_assoc start before l)))

-- A response without a Content-Length is sent with one: in the bytes that `WriteResponse` sends there
-- is a Content-Length line, behind it there are an empty line and the body of the response, which is
-- the handler's, and the value of the line reads back as the length of this body, as long as that is
-- below 2 ^ 63.
pub write_response-content_length :
    (req : HttpRequest) (res : HttpResponse)
    → has_header res content_length ≡ false
    → length res.body < 2 ^ 63
    → HasLength (write_response req res).0 res.body
unfolding write_response
write_response-content_length req res missing short =
    let one : IsSame res (add_connection req res) =
      unfold add_connection in set_header-IsSame res _ _ refl in
    let two =
      add_length_lem (add_connection req res)
        (one.length_header ∙ find_missing res content_length missing) in
    let three = add_type-IsSame (add_length (add_connection req res)) in
    let four = add_location-IsSame (add_type (add_length (add_connection req res))) in
    let same_body : (complete req res).body ≡ res.body =
      four.same_body ∙ three.same_body ∙ two.1 ∙ one.same_body in
    let there : find (complete req res).headers content_length
        ≡ some (to_string (length res.body)) =
      four.length_header
      ∙ three.length_header
      ∙ two.0
      ∙ ap (λ b. some (to_string (length b))) one.same_body in
    let (before, after, lines) =
      header_lines-find (complete req res).headers content_length (to_string (length res.body))
        there in
    let r = complete req res in
    let start =
      req.version
      ++ codes " "
      ++ to_string r.status
      ++ codes " "
      ++ statu_desc r.status
      ++ codes "\r\n" in
    (
      start ++ before,
      to_string (length res.body),
      after,
      ap (λ (b : Bytes). start ++ header_lines r.headers ++ codes "\r\n" ++ b) same_body
          ∙ sent_with start before (line_of content_length (to_string (length res.body))) after
              (header_lines r.headers) res.body lines,
      stol-to_string (length res.body) short,
    )

-- The answer to a HEAD request has no body. A Content-Length that the handler has set stays: the
-- insertion of "0" does not replace it.
pub head_answer-content_length :
    (req : HttpRequest) (res : HttpResponse)
    → req.method ≡ codes "HEAD"
    → ((head_answer req res).body ≡ [])
      × (get_header (head_answer req res) content_length ≡ get_header res content_length)
unfolding head_answer set_header
head_answer-content_length req res e = elim (Option-cases (find res.headers content_length)) [
  | inl missing ↦
      rw (e, has_missing res content_length missing)
        (
          refl,
          get_missing (record res { body = [] }) content_length missing
              ∙ sym (get_missing res content_length missing),
        )
  | inr (v, there) ↦
      rw (e, has_there res content_length v there)
        (
          refl,
          get-find
                (record res { body = []; headers = insert res.headers content_length (codes "0") })
                content_length v
                (find-insert_self res.headers content_length (codes "0") ∙ rw there)
              ∙ sym (get-find res content_length v there),
        )
]
