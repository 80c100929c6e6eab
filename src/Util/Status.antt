-- ===== src/Util/Status.antt =====
-- Uitl::StatuDesc of Http/Http.hpp: the reason phrase of a response code.
use high_concurrency_server.Common.{ℕ, List, [], ◌∷◌, Bytes, codes, ◌==◌, if◌then◌else◌}

-- The entries of `map`, in the order of the source.
unfoldable pub statu_map : List (ℕ × Bytes)
statu_map =
    (100, codes "Continue")
    ∷ (101, codes "Switching Protocol")
    ∷ (102, codes "Processing")
    ∷ (103, codes "Early Hints")
    ∷ (200, codes "OK")
    ∷ (201, codes "Created")
    ∷ (202, codes "Accepted")
    ∷ (203, codes "Non-Authoritative Information")
    ∷ (204, codes "No Content")
    ∷ (205, codes "Reset Content")
    ∷ (206, codes "Partial Content")
    ∷ (207, codes "Multi-Status")
    ∷ (208, codes "Already Reported")
    ∷ (226, codes "IM Used")
    ∷ (300, codes "Multiple Choice")
    ∷ (301, codes "Moved Permanently")
    ∷ (302, codes "Found")
    ∷ (303, codes "See Other")
    ∷ (304, codes "Not Modified")
    ∷ (305, codes "Use Proxy")
    ∷ (306, codes "unused")
    ∷ (307, codes "Temporary Redirect")
    ∷ (308, codes "Permanent Redirect")
    ∷ (400, codes "Bad Request")
    ∷ (401, codes "Unauthorized")
    ∷ (402, codes "Payment Required")
    ∷ (403, codes "Forbidden")
    ∷ (404, codes "Not Found")
    ∷ (405, codes "Method Not Allowed")
    ∷ (406, codes "Not Acceptable")
    ∷ (407, codes "Proxy Authentication Required")
    ∷ (408, codes "Request Timeout")
    ∷ (409, codes "Conflict")
    ∷ (410, codes "Gone")
    ∷ (411, codes "Length Required")
    ∷ (412, codes "Precondition Failed")
    ∷ (413, codes "Payload Too Large")
    ∷ (414, codes "URI Too Long")
    ∷ (415, codes "Unsupported Media Type")
    ∷ (416, codes "Range Not Satisfiable")
    ∷ (417, codes "Expectation Failed")
    ∷ (418, codes "I'm a teapot")
    ∷ (421, codes "Misdirected Request")
    ∷ (422, codes "Unprocessable Entity")
    ∷ (423, codes "Locked")
    ∷ (424, codes "Failed Dependency")
    ∷ (425, codes "Too Early")
    ∷ (426, codes "Upgrade Required")
    ∷ (428, codes "Precondition Required")
    ∷ (429, codes "Too Many Requests")
    ∷ (431, codes "Request Header Fields Too Large")
    ∷ (451, codes "Unavailable For Legal Reasons")
    ∷ (501, codes "Not Implemented")
    ∷ (502, codes "Bad Gateway")
    ∷ (503, codes "Service Unavailable")
    ∷ (504, codes "Gateway Timeout")
    ∷ (505, codes "HTTP Version Not Supported")
    ∷ (506, codes "Variant Also Negotiates")
    ∷ (507, codes "Insufficient Storage")
    ∷ (508, codes "Loop Detected")
    ∷ (510, codes "Not Extended")
    ∷ (511, codes "Network Authentication Required")
    ∷ []

-- `map.find(code)`, or the fallback.
unfoldable pub find_desc : List (ℕ × Bytes) → ℕ → Bytes
find_desc [] code = codes "unknown"
find_desc ((k, desc) ∷ map) code = if k == code then desc else find_desc map code

unfoldable pub statu_desc : ℕ → Bytes
unfolding statu_map find_desc
statu_desc code = find_desc statu_map code
