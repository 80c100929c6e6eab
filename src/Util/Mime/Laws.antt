-- ===== src/Util/Mime/Laws.antt =====
-- Which part of a file name `ExMime` reads.
use high_concurrency_server.Common.{
  ◌≡◌, refl, ap, some, none, [], ◌∷◌, ◌++◌, Bytes, map, arith, Lacks,
}
use high_concurrency_server.Util.Mime.{
  extension, to_lower, mime_of, mime_map, find_mime, ex_mime, ocstream,
}

extension-Lacks : (s : Bytes) → Lacks b'.' s → extension s ≡ none
unfolding extension
extension-Lacks [] h = refl
extension-Lacks (c ∷ s) h = rw (extension-Lacks s h.1) (ground arith)

extension-dot :
    (stem ext : Bytes) → Lacks b'.' ext → extension (stem ++ b'.' ∷ ext) ≡ some (b'.' ∷ ext)
unfolding extension
extension-dot [] ext h = rw (extension-Lacks ext h)
extension-dot (c ∷ stem) ext h = rw (extension-dot stem ext h)

-- The media type of a name with a dot is that of its last extension alone, in any mixture of
-- upper and lower case.
pub ex_mime_case :
    (stem stem' ext ext' : Bytes)
    → Lacks b'.' ext
    → Lacks b'.' ext'
    → map to_lower ext ≡ map to_lower ext'
    → ex_mime (stem ++ b'.' ∷ ext) ≡ ex_mime (stem' ++ b'.' ∷ ext')
unfolding ex_mime
ex_mime_case stem stem' ext ext' h h' e =
    rw (extension-dot stem ext h, extension-dot stem' ext' h', mime_of)
      (ap (λ t. find_mime mime_map (b'.' ∷ t)) e)

-- A name without a dot is a stream of bytes.
pub ex_mime_no_dot : (s : Bytes) → Lacks b'.' s → ex_mime s ≡ ocstream
unfolding ex_mime
ex_mime_no_dot s h = rw (extension-Lacks s h, mime_of)
