-- ===== src/Any/Tests.antt =====
-- Values of two types, a number and a text, in three Any objects.
use high_concurrency_server.Common.{ℕ, ◌≡◌, refl, some, List, [], ◌∷◌}
use high_concurrency_server.Any.{Anys, init}
use high_concurrency_server.Any.Owner.{Owned, value}
use high_concurrency_server.Any.Runs.{
  AnyCall, set, copy, exchange, modify, end, run, meant_all, run-meant_all, init-Owned,
}

data AnyValue : Type 0 where
  num : ℕ → AnyValue
  text : List ℕ → AnyValue

abbrev type_of : AnyValue → ℕ
type_of (num n) = 4
type_of (text s) = 9

abbrev start : Anys AnyValue
start = init

start-Owned : Owned start
start-Owned = init-Owned

-- The copy keeps its value when the original is changed; a text is not put into a number.
abbrev calls : List (AnyCall AnyValue)
calls =
    set 0 (num 5)
    ∷ copy 1 0
    ∷ copy 1 1
    ∷ modify 0 (num 6)
    ∷ modify 0 (text [])
    ∷ exchange 0 2
    ∷ end 0
    ∷ []

run-meant_all_example :
    (s' : Anys AnyValue) × (run type_of start calls ≡ some s')
    × Owned s'
    × (value s' ≡ meant_all type_of (value start) calls)
run-meant_all_example = run-meant_all type_of start calls start-Owned

copy_kept : meant_all type_of (value start) calls 1 ≡ some (num 5)
unfolding meant_all
copy_kept = refl

original_changed : meant_all type_of (value start) calls 2 ≡ some (num 6)
unfolding meant_all
original_changed = refl
