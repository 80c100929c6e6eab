-- ===== src/Http/Server/Routes.antt =====
-- Which handler answers a request, and which files are served.
use high_concurrency_server.Common.{
  ℕ, ◌≡◌, refl, Bool-cases, Bool, true, false, ◌&&◌, Option, none, some, List, [], ◌∷◌, ◌++◌, Bytes,
  length, ◌==◌, inl, inr, Option-cases, All, some-cancel,
}
use high_concurrency_server.Util.Split.Laws.{fields, split-fields}
use high_concurrency_server.Util.Path.{vaild_path, check_levels}
use high_concurrency_server.Util.Path.Depth.{walk, is_some, NoDot, vaild_path-walk}
use high_concurrency_server.Http.Files.{FileSystem, is_regular, read_file}
use high_concurrency_server.Http.Request.{HttpRequest}
use high_concurrency_server.Http.Response.{HttpResponse}
use high_concurrency_server.Http.Server.{
  Handler, HttpServer, is_get, back, guarded, names_file, with_index, serve, file_handler, route,
  is_file_handler, dispather,
}

guarded_lem :
    (a g : Bool) (r : Option Bool) → guarded a g r ≡ some true → (g ≡ true) × (r ≡ some true)
guarded_lem true g r e = absurd cc
guarded_lem false false r e = absurd cc
guarded_lem false true r e = (refl, e)

both_true : (a b : Bool) → a && b ≡ true → a ≡ true
both_true true b e = refl
both_true false b e = e

-- A string that is not empty has a last byte.
back_total : (s : Bytes) (c : ℕ) (t : Bytes) → (l : ℕ) × (back (s ++ c ∷ t) ≡ some l)
unfolding back
back_total [] c [] = (c, refl)
back_total [] c (d ∷ t) = back_total [] d t
back_total (a ∷ []) c t = back_total [] c t
back_total (a ∷ b ∷ s) c t = back_total (b ∷ s) c t

vaild_path_total : (path : Bytes) → (v : Bool) × (vaild_path path ≡ some v)
unfolding vaild_path
vaild_path_total path =
    (check_levels ([] ++ fields b'/' path) 0, rw (split-fields path b'/' []) refl)

guarded_total :
    (a g : Bool) (r : Option Bool)
    → (v : Bool) × (r ≡ some v)
    → (v : Bool) × (guarded a g r ≡ some v)
guarded_total true g r h = (false, refl)
guarded_total false false r h = (false, refl)
guarded_total false true r h = h

module _ (R : Type 0) (match : R → Bytes → Option (List Bytes)) (fs : FileSystem) where
  -- No pattern of the routes matches the path.
  abbrev pub NoMatch : Bytes → List (R × Handler) → Type 0
  NoMatch path = All (λ (h : R × Handler). match h.0 path ≡ none)

  -- The first route whose pattern matches answers the request, with the submatches of its pattern;
  -- the routes behind it do not matter.
  pub dispather_first :
      (req : HttpRequest) (res : HttpResponse) (skipped after : List (R × Handler)) (re : R)
      (func : Handler) (m : List Bytes)
      → NoMatch req.path skipped
      → match re req.path ≡ some m
      → dispather R match fs req res (skipped ++ (re, func) ∷ after)
        ≡ (record req { matches = m }, func (record req { matches = m }) res)
  unfolding dispather
  dispather_first req res [] after re func m h e = rw e
  dispather_first req res ((r, f) ∷ skipped) after re func m h e =
      rw h.0 (dispather_first (record req { matches = [] }) res skipped after re func m h.1 e)

  -- Without a route that matches the answer has status 404 and is otherwise untouched.
  pub dispather_none :
      (req : HttpRequest) (res : HttpResponse) (handlers : List (R × Handler))
      → NoMatch req.path handlers
      → (dispather R match fs req res handlers).1 ≡ record res { status = 404 }
  unfolding dispather
  dispather_none req res [] h = refl
  dispather_none req res ((r, f) ∷ handlers) h =
      rw (dispather, h.0) (dispather_none (record req { matches = [] }) res handlers h.1)

  names_file_total :
      (s : HttpServer R match fs) (req : HttpRequest) (c : ℕ) (p : Bytes)
      → req.path ≡ c ∷ p
      → (v : Bool) × (names_file R match fs s req ≡ some v)
  unfolding names_file
  names_file_total s req c p e =
      let (v, valid) = vaild_path_total req.path in
      let (l, ends) = back_total s.basedir c p in
      (v && is_regular fs (with_index l (s.basedir ++ req.path)), rw (valid, e, ends) refl)

  file_handler_total :
      (s : HttpServer R match fs) (req : HttpRequest) (res : HttpResponse) (c : ℕ) (p : Bytes)
      → req.path ≡ c ∷ p
      → (r : HttpResponse) × (file_handler R match fs s req res ≡ some r)
  unfolding file_handler
  file_handler_total s req res c p e =
      let (l, ends) = back_total [] c p in
      let file = with_index l (s.basedir ++ req.path) in
      (serve R match fs res file (read_file fs file res.body), rw (e, ends) refl)

  -- `Route` fails for an empty path only, whose last byte `FileHandler` asks for.
  pub route_fails :
      (s : HttpServer R match fs) (req : HttpRequest) (res : HttpResponse)
      → route R match fs s req res ≡ none
      → req.path ≡ []
  unfolding route is_file_handler
  route_fails s req res h = by_path req.path refl
    where
      by_path : (path : Bytes) → req.path ≡ path → path ≡ []
      by_path [] e = refl
      by_path (c ∷ p) e =
          let (v, named) =
            guarded_total (length s.basedir == 0) (is_get req) (names_file R match fs s req)
              (names_file_total s req c p e) in
          let (r, file) = file_handler_total s req res c p e in
          elim (Bool-cases v) [
            | inl yes' ↦ absurd (let clash = rw (named, yes', file) at h in cc)
            | inr no' ↦ absurd (let clash = rw (named, no') at h in cc)
          ]

  names_file_lem :
      (s : HttpServer R match fs) (req : HttpRequest) (v : Bool)
      → vaild_path req.path ≡ some v
      → names_file R match fs s req ≡ some true
      → v ≡ true
  unfolding names_file
  names_file_lem s req v valid e = elim (Option-cases (back (s.basedir ++ req.path))) [
    | inl missing ↦ absurd (let stuck = rw (names_file, valid, missing) at e in cc)
    | inr (last, found) ↦ both_true v _ (some-cancel (rw (names_file, valid, found) at e))
  ]

  -- A request whose path has no `.` segment is answered with a file for GET and HEAD only, and only if
  -- the path does not lead above the web root.
  pub is_file_handler-walk :
      (s : HttpServer R match fs) (req : HttpRequest)
      → NoDot (fields b'/' req.path)
      → is_file_handler R match fs s req ≡ some true
      → (is_get req ≡ true) × (is_some (walk (fields b'/' req.path) []) ≡ true)
  unfolding is_file_handler
  is_file_handler-walk s req h e =
      let (got, named) =
        guarded_lem (length s.basedir == 0) (is_get req) (names_file R match fs s req) e in
      (got, names_file_lem s req _ (vaild_path-walk req.path h) named)
