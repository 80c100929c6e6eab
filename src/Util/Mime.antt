-- ===== src/Util/Mime.antt =====
-- Uitl::ExMime of Http/Http.hpp: the media type for the extension of a file name.
pub mod Laws
use high_concurrency_server.Common.{
  ℕ, ◌+◌, ◌&&◌, List, [], ◌∷◌, Bytes, Option, none, some, map, codes, leb, ◌==◌, bytes_eq,
  if◌then◌else◌,
}

-- The entries of `mime`, in the order of the source.
unfoldable pub mime_map : List (Bytes × Bytes)
mime_map =
    (codes ".aac", codes "audio/aac")
    ∷ (codes ".abw", codes "application/x-abiword")
    ∷ (codes ".arc", codes "application/x-freearc")
    ∷ (codes ".avi", codes "video/x-msvideo")
    ∷ (codes ".azw", codes "application/vnd.amazon.ebook")
    ∷ (codes ".bin", codes "application/octet-stream")
    ∷ (codes ".bmp", codes "image/bmp")
    ∷ (codes ".bz", codes "application/x-bzip")
    ∷ (codes ".bz2", codes "application/x-bzip2")
    ∷ (codes ".csh", codes "application/x-csh")
    ∷ (codes ".css", codes "text/css")
    ∷ (codes ".csv", codes "text/csv")
    ∷ (codes ".doc", codes "application/msword")
    ∷ (
      codes ".docx",
      codes "application/vnd.openxmlformats-officedocument.wordprocessingml.document",
    )
    ∷ (codes ".eot", codes "application/vnd.ms-fontobject")
    ∷ (codes ".epub", codes "application/epub+zip")
    ∷ (codes ".gif", codes "image/gif")
    ∷ (codes ".htm", codes "text/html")
    ∷ (codes ".html", codes "text/html")
    ∷ (codes ".ico", codes "image/vnd.microsoft.icon")
    ∷ (codes ".ics", codes "text/calendar")
    ∷ (codes ".jar", codes "application/java-archive")
    ∷ (codes ".jpeg", codes "image/jpeg")
    ∷ (codes ".jpg", codes "image/jpeg")
    ∷ (codes ".js", codes "text/javascript")
    ∷ (codes ".json", codes "application/json")
    ∷ (codes ".jsonld", codes "application/ld+json")
    ∷ (codes ".mid", codes "audio/midi")
    ∷ (codes ".midi", codes "audio/x-midi")
    ∷ (codes ".mjs", codes "text/javascript")
    ∷ (codes ".mp3", codes "audio/mpeg")
    ∷ (codes ".mpeg", codes "video/mpeg")
    ∷ (codes ".mpkg", codes "application/vnd.apple.installer+xml")
    ∷ (codes ".odp", codes "application/vnd.oasis.opendocument.presentation")
    ∷ (codes ".ods", codes "application/vnd.oasis.opendocument.spreadsheet")
    ∷ (codes ".odt", codes "application/vnd.oasis.opendocument.text")
    ∷ (codes ".oga", codes "audio/ogg")
    ∷ (codes ".ogv", codes "video/ogg")
    ∷ (codes ".ogx", codes "application/ogg")
    ∷ (codes ".otf", codes "font/otf")
    ∷ (codes ".png", codes "image/png")
    ∷ (codes ".pdf", codes "application/pdf")
    ∷ (codes ".ppt", codes "application/vnd.ms-powerpoint")
    ∷ (
      codes ".pptx",
      codes "application/vnd.openxmlformats-officedocument.presentationml.presentation",
    )
    ∷ (codes ".rar", codes "application/x-rar-compressed")
    ∷ (codes ".rtf", codes "application/rtf")
    ∷ (codes ".sh", codes "application/x-sh")
    ∷ (codes ".svg", codes "image/svg+xml")
    ∷ (codes ".swf", codes "application/x-shockwave-flash")
    ∷ (codes ".tar", codes "application/x-tar")
    ∷ (codes ".tif", codes "image/tiff")
    ∷ (codes ".tiff", codes "image/tiff")
    ∷ (codes ".ttf", codes "font/ttf")
    ∷ (codes ".txt", codes "text/plain")
    ∷ (codes ".vsd", codes "application/vnd.visio")
    ∷ (codes ".wav", codes "audio/wav")
    ∷ (codes ".weba", codes "audio/webm")
    ∷ (codes ".webm", codes "video/webm")
    ∷ (codes ".webp", codes "image/webp")
    ∷ (codes ".woff", codes "font/woff")
    ∷ (codes ".woff2", codes "font/woff2")
    ∷ (codes ".xhtml", codes "application/xhtml+xml")
    ∷ (codes ".xls", codes "application/vnd.ms-excel")
    ∷ (codes ".xlsx", codes "application/vnd.openxmlformats-officedocument.spreadsheetml.sheet")
    ∷ (codes ".xml", codes "application/xml")
    ∷ (codes ".xul", codes "application/vnd.mozilla.xul+xml")
    ∷ (codes ".zip", codes "application/zip")
    ∷ (codes ".3gp", codes "video/3gpp")
    ∷ (codes ".3g2", codes "video/3gpp2")
    ∷ (codes ".7z", codes "application/x-7z-compressed")
    ∷ []

abbrev pub ocstream : Bytes
ocstream = codes "application/octet-stream"

-- The last dot, if there is none further on.
abbrev or_here : Option Bytes → ℕ → Bytes → Option Bytes
or_here (some e) c s = some e
or_here none c s = if c == b'.' then some (c ∷ s) else none

-- `filename.substr(filename.rfind('.'))`
unfoldable pub extension : Bytes → Option Bytes
extension [] = none
extension (c ∷ s) = or_here (extension s) c s

-- `tolower` of the C locale
abbrev pub to_lower : ℕ → ℕ
to_lower c = if leb b'A' c && leb c b'Z' then c + 32 else c

-- `mime.find(sub)`, or a stream of bytes.
unfoldable pub find_mime : List (Bytes × Bytes) → Bytes → Bytes
find_mime [] sub = ocstream
find_mime ((k, t) ∷ m) sub = if bytes_eq k sub then t else find_mime m sub

-- The media type for what `rfind` gave.
unfoldable pub mime_of : Option Bytes → Bytes
unfolding mime_map find_mime
mime_of none = ocstream
mime_of (some sub) = find_mime mime_map (map to_lower sub)

unfoldable pub ex_mime : Bytes → Bytes
unfolding extension mime_of
ex_mime filename = mime_of (extension filename)
