-- ===== src/Echo/Files.antt =====
-- Which files the echo server sends, and to whom.
use high_concurrency_server.Common.{
  ◌⊎◌, ℕ, ◌≡◌, ◌≢◌, ◌∙◌, refl, sym, ap, Bool, true, false, not, ◌&&◌, none, some, [], ◌++◌, Bytes,
  codes, ◌==◌, bytes_eq, if◌then◌else◌, arith, inl, inr, Bool-cases, Option-cases, some-cancel,
}
use mathlib.Core.Path.{subst}
use high_concurrency_server.Util.Path.{vaild_path}
use high_concurrency_server.Http.Files.{FileSystem, is_directory, is_regular, read_file}
use high_concurrency_server.Http.Request.{HttpRequest}
use high_concurrency_server.Http.Response.{HttpResponse, set_header, set_redirect}
use high_concurrency_server.Http.Server.{back, is_get}
use high_concurrency_server.Echo.{
  Target, moved, missing, found, found_if, target, with_file, on_target, handle_request,
  build_error_response, root_path, is_file, has_dot,
}

and_true : (a b : Bool) → a && b ≡ true → b ≡ true
and_true true b h = h
and_true false b h = cc

error_status : (r : HttpResponse) → (build_error_response r).status ≡ r.status
unfolding build_error_response set_header
error_status r = refl

found_if_lem : (b : Bool) (n name : Bytes) → found_if n b ≡ found name → (b ≡ true) × (n ≡ name)
found_if_lem true n name h = (refl, cc)
found_if_lem false n name h = absurd cc

-- An error page has another status than 200.
error_other :
    (r r' : HttpResponse)
    → build_error_response r ≡ r'
    → (r.status == 200) ≡ false
    → r'.status ≢ 200
error_other r r' e off ok =
    let same : r.status ≡ 200 = sym (error_status r) ∙ ap (λ (x : HttpResponse). x.status) e ∙ ok in
    ground arith

module _ (fs : FileSystem) (root : Bytes) where
  -- The names that the server tries for a path.
  abbrev pub Named : Bytes → Bytes → Type 0
  Named path name =
      (name ≡ path) ⊎ (name ≡ path ++ codes ".html") ⊎ (name ≡ path ++ codes "index.html")

  -- What `target` names is a regular file with one of these names.
  target-is_file :
      (path name : Bytes) (last : ℕ)
      → target fs root path last ≡ found name
      → (is_file fs root name ≡ true) × Named path name
  unfolding target
  target-is_file path name last h = elim (Bool-cases (last == b'/')) [
    | inl dir ↦
        let (there, same) =
          found_if_lem (is_file fs root (path ++ codes "index.html")) _ name (rw dir at h) in
        (ap (is_file fs root) (sym same) ∙ there, inr (inr (sym same)))
    | inr plain ↦ elim (Bool-cases (is_file fs root path)) [
      | inl there ↦
          let same : found path ≡ found name = rw (plain, there) at h in
          let q : path ≡ name = cc in (ap (is_file fs root) (sym q) ∙ there, inl (sym q))
      | inr absent ↦
          elim (Bool-cases (not (has_dot path) && is_file fs root (path ++ codes ".html"))) [
            | inl html ↦
                let same : found (path ++ codes ".html") ≡ found name =
                  rw (plain, absent, html) at h in
                let q : path ++ codes ".html" ≡ name = cc in
                (
                  ap (is_file fs root) (sym q) ∙ and_true (not (has_dot path)) _ html,
                  inr (inl (sym q)),
                )
            | inr other ↦ elim (Bool-cases (is_directory fs (root ++ path))) [
              | inl dir ↦
                  absurd (let q : moved ≡ found name = rw (plain, absent, other, dir) at h in cc)
              | inr nothing ↦
                  absurd
                    (let q : missing ≡ found name = rw (plain, absent, other, nothing) at h in cc)
            ]
          ]
    ]
  ]

  -- The answer with a file, when its status is 200.
  with_file_lem :
      (req : HttpRequest) (res r : HttpResponse) (name : Bytes) (got : Bytes × Bool)
      → with_file fs root req res name got ≡ r
      → r.status ≡ 200
      → (got.1 ≡ true) × (r.body ≡ (if bytes_eq req.method (codes "GET") then got.0 else []))
  unfolding with_file
  with_file_lem req res r name (content, false) e ok =
      absurd (error_other (record res { status = 500 }) r e refl ok)
  with_file_lem req res r name (content, true) e ok =
      (refl, ap (λ (x : HttpResponse). x.body) (sym e))

  -- What an answer with status 200 sends.
  abbrev pub Sends : HttpRequest → HttpResponse → Type 0
  Sends req r =
      (name : Bytes) × Named (root_path req.path) name
      × (is_regular fs (root ++ name) ≡ true)
      × ((read_file fs (root ++ name) []).1 ≡ true)
      × (r.body
          ≡ (if bytes_eq req.method (codes "GET") then (read_file fs (root ++ name) []).0 else []))

  on_target-Sends :
      (req : HttpRequest) (res r : HttpResponse) (path : Bytes) (last : ℕ) (t : Target)
      → path ≡ root_path req.path
      → target fs root path last ≡ t
      → on_target fs root req res path t ≡ r
      → r.status ≡ 200
      → Sends req r
  unfolding on_target set_redirect
  on_target-Sends req res r path last moved own e h ok =
      absurd (let q : 302 ≡ r.status = ap (λ (x : HttpResponse). x.status) h in omega arith)
  on_target-Sends req res r path last missing own e h ok =
      absurd (error_other (record res { status = 404 }) r h refl ok)
  on_target-Sends req res r path last (found name) own e h ok =
      let (done, body) = with_file_lem req res r name (read_file fs (root ++ name) []) h ok in
      let (there, named) = target-is_file path name last e in
      (name, subst (λ p. Named p name) own named, there, done, body)

  judged-Sends :
      (req : HttpRequest) (res r : HttpResponse) (valid : Bool) (last : ℕ)
      → (if not valid
          then build_error_response (record res { status = 403 })
          else on_target fs root req res
              (root_path req.path)
              (target fs root (root_path req.path) last))
        ≡ r
      → r.status ≡ 200
      → (valid ≡ true) × Sends req r
  judged-Sends req res r false last h ok =
      absurd (error_other (record res { status = 403 }) r h refl ok)
  judged-Sends req res r true last h ok =
      (refl, on_target-Sends req res r (root_path req.path) last _ refl refl h ok)

  -- `HandleRequest` answers with status 200 only a GET or HEAD request for a path that `VaildPath`
  -- accepts. It then has read a regular file whose name is the root followed by the path of the
  -- request, or "/index.html" for the path "/", as it is or with ".html" or "index.html" behind it. The
  -- body is the content of this file for GET, and empty for HEAD.
  pub handle_request-Sends :
      (req : HttpRequest) (res r : HttpResponse)
      → handle_request fs root req res ≡ some r
      → r.status ≡ 200
      → (is_get req ≡ true) × (vaild_path req.path ≡ some true) × Sends req r
  unfolding handle_request
  handle_request-Sends req res r h ok = elim (Bool-cases (is_get req)) [
    | inl got ↦ elim (Option-cases (vaild_path req.path)) [
      | inl fails ↦ absurd (let q : none ≡ some r = rw (got, fails) at h in cc)
      | inr (v, judged) ↦ elim (Option-cases (back (root_path req.path))) [
        | inl empty ↦ absurd (let q : none ≡ some r = rw (got, judged, empty) at h in cc)
        | inr (last, ends) ↦
            let (valid, sends) =
              judged-Sends req res r v last (some-cancel (rw (got, judged, ends) at h)) ok in
            (got, judged ∙ ap some valid, sends)
      ]
    ]
    | inr other ↦
        absurd (error_other (record res { status = 405 }) r (some-cancel (rw other at h)) refl ok)
  ]
