-- ===== src/Logger.antt =====
-- The logger of source/logger.hpp. The clock, the process id, and what `<<` makes of a value are
-- arguments. The mutexes are left out: one thread logs. `none` is a message without a strategy.
pub mod Lines
mod Tests
use high_concurrency_server.Common.{
  ℕ, ◌+◌, ◌-◌, Bool, Option, some, none, List, [], ◌∷◌, ◌++◌, Bytes, codes, length, replicate, ◌==◌,
  bytes_eq, if◌then◌else◌, ◌>>=◌,
}
use high_concurrency_server.Http.Server.{back}
use high_concurrency_server.Http.Writer.{to_string}

pub data LogLevel : Type 0 where
  info debug warnning error fatal : LogLevel

unfoldable pub log_level_to_string : LogLevel → Bytes
log_level_to_string info = codes "INFO"
log_level_to_string debug = codes "DEBUG"
log_level_to_string warnning = codes "WARNNING"
log_level_to_string error = codes "ERROR"
log_level_to_string fatal = codes "FATAL"

-- `struct tm`
pub record Tm : Type 0 where
  pub tm_year : ℕ
  pub tm_mon : ℕ
  pub tm_mday : ℕ
  pub tm_hour : ℕ
  pub tm_min : ℕ
  pub tm_sec : ℕ

-- `%0wd`
unfoldable pub padded : ℕ → ℕ → Bytes
unfolding to_string
padded w n = replicate (w - length (to_string n)) b'0' ++ to_string n

unfoldable pub gettime : Tm → Bytes
unfolding padded
gettime t =
    padded 4 (t.tm_year + 1900)
    ++ codes "-"
    ++ padded 2 (t.tm_mon + 1)
    ++ codes "-"
    ++ padded 2 t.tm_mday
    ++ codes ": "
    ++ padded 2 t.tm_hour
    ++ codes "-"
    ++ to_string t.tm_min
    ++ codes "-"
    ++ padded 2 t.tm_sec

-- WindowSyncStregy, and FileSyncStregy with its name and its path.
pub data LogStrategy : Type 0 where
  window : LogStrategy
  file : Bytes → Bytes → LogStrategy

-- What was written to the screen and to each file, and which files open.
pub record World : Type 0 where
  pub screen : Bytes
  pub files : Bytes → Bytes
  pub opens : Bytes → Bool

abbrev pub append_file : World → Bytes → Bytes → World
append_file w filename s = record w {
  files = λ f. if bytes_eq filename f then w.files f ++ s else w.files f;
}

abbrev pub slash_if : Option ℕ → Bytes → Bytes
slash_if none path = path
slash_if (some c) path = if c == b'/' then path else path ++ codes "/"

-- The path with a `/` at its end, unless it is empty.
unfoldable pub with_slash : Bytes → Bytes
unfolding back
with_slash path = slash_if (back path) path

unfoldable pub sync_strategy : LogStrategy → World → Bytes → LogStrategy × World
sync_strategy window w s = (window, record w { screen = w.screen ++ (s ++ codes "\n") })
sync_strategy (file name path) w s =
    let filename = with_slash path ++ name in
    (
      file name (with_slash path),
      if w.opens filename then append_file w filename (s ++ codes "\n") else w,
    )

unfoldable pub use_window_strategy : Option LogStrategy → Option LogStrategy
use_window_strategy strategy = some window

unfoldable pub use_file_strategy : Option LogStrategy → Option LogStrategy
use_file_strategy strategy = some (file (codes "log.txt") (codes "./log"))

-- `LOG(level) << p << q …`: what the macro, the clock and the process give, and the pieces.
pub record Message : Type 0 where
  pub level : LogLevel
  pub line : ℕ
  pub filename : Bytes
  pub pid : ℕ
  pub time : Tm
  pub pieces : List Bytes

abbrev pub bracketed : Bytes → Bytes
bracketed s = codes "[" ++ (s ++ codes "] ")

-- The constructor of loggermassger.
unfoldable pub head_info : Message → Bytes
unfolding gettime log_level_to_string to_string
head_info m =
    bracketed (gettime m.time)
    ++ bracketed (log_level_to_string m.level)
    ++ bracketed (to_string m.pid)
    ++ bracketed (to_string m.line)
    ++ bracketed m.filename

-- `operator<<`, for each piece.
unfoldable pub add_pieces : Bytes → List Bytes → Bytes
add_pieces loginfo [] = loginfo
add_pieces loginfo (p ∷ pieces) = add_pieces (loginfo ++ p) pieces

-- A whole statement; the destructor of loggermassger gives the text to the strategy.
unfoldable pub log : Option LogStrategy → World → Message → Option (Option LogStrategy × World)
log strategy w m = do
  s ← strategy
  let (s', w') = sync_strategy s w (add_pieces (head_info m) m.pieces)
  some (some s', w')
