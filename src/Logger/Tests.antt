-- ===== src/Logger/Tests.antt =====
-- Two statements into the default file.
use high_concurrency_server.Common.{
  ◌≡◌, refl, true, Option, some, none, List, [], ◌∷◌, ◌++◌, Bytes, codes,
}
use high_concurrency_server.Logger.{
  Message, World, LogStrategy, Tm, file, gettime, with_slash, log, use_file_strategy, warnning,
  info,
}
use high_concurrency_server.Logger.Lines.{lines, log_all, log_all-lines, grown}

abbrev noon : Tm
noon = record { tm_year = 125; tm_mon = 0; tm_mday = 9; tm_hour = 12; tm_min = 5; tm_sec = 7 }

abbrev two : List Message
two =
    record {
      level = info;
      line = 12;
      filename = codes "a.cc";
      pid = 77;
      time = noon;
      pieces = codes "fd " ∷ codes "5" ∷ [];
    }
    ∷ record {
      level = warnning;
      line = 13;
      filename = codes "a.cc";
      pid = 77;
      time = noon;
      pieces = [];
    }
    ∷ []

abbrev world : World
world = record { screen = []; files = λ f. []; opens = λ f. true }

log_all-lines_example :
    (s : Option LogStrategy) × (w' : World) × (log_all
        (some (file (codes "log.txt") (codes "./log")))
        world
        two
      ≡ some (s, w'))
    × ((f : Bytes)
        → w'.files f
          ≡ grown (with_slash (codes "./log") ++ codes "log.txt") f (world.files f) (lines two))
    × (w'.screen ≡ [])
log_all-lines_example = log_all-lines (codes "log.txt") (codes "./log") world two refl

-- The minutes have no leading zero.
noon_time : gettime noon ≡ codes "2025-01-09: 12-5-07"
unfolding gettime
noon_time = refl

-- Without a strategy there is nothing to call.
no_strategy : log_all none world two ≡ none
unfolding log_all log
no_strategy = refl

default_file : use_file_strategy none ≡ some (file (codes "log.txt") (codes "./log"))
unfolding use_file_strategy
default_file = refl
