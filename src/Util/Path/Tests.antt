-- ===== src/Util/Path/Tests.antt =====
-- Paths that stay below the web root and paths that leave it.
use high_concurrency_server.Common.{◌≡◌, refl, some, none, [], ◌∷◌, codes}
use high_concurrency_server.Util.Split.Laws.{fields}
use high_concurrency_server.Util.Path.{check_levels, vaild_path}
use high_concurrency_server.Util.Path.Depth.{walk, is_some, vaild_path-walk, vaild_path-dot_escapes}

vaild_path-walk_example :
    vaild_path (codes "/a/../../b") ≡ some (is_some (walk (fields b'/' (codes "/a/../../b")) []))
vaild_path-walk_example =
    vaild_path-walk (codes "/a/../../b") (unfold fields in (refl, (refl, (refl, (refl, tt)))))

vaild_path-dot_escapes_example :
    (vaild_path (codes "/./../etc") ≡ some (check_levels (codes "etc" ∷ []) 0))
    × (walk (fields b'/' (codes "/./../etc")) [] ≡ none)
vaild_path-dot_escapes_example =
    vaild_path-dot_escapes (codes "/./../etc") (codes "etc" ∷ []) (unfold fields in refl)
