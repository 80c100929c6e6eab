-- ===== src/Util/Split/Tests.antt =====
-- A path with empty segments.
use high_concurrency_server.Common.{◌≡◌, some, [], ◌∷◌, ◌++◌, codes}
use high_concurrency_server.Util.Split.{split}
use high_concurrency_server.Util.Split.Laws.{fields, split-fields}

split-fields_example :
    split (codes "//a/bc//") (b'/' ∷ []) (codes "old" ∷ [])
    ≡ some ((codes "old" ∷ []) ++ fields b'/' (codes "//a/bc//"))
split-fields_example = split-fields (codes "//a/bc//") b'/' (codes "old" ∷ [])
