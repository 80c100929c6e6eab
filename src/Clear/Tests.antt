-- ===== src/Clear/Tests.antt =====
-- A page that names the old domain twice.
use high_concurrency_server.Common.{◌≡◌, refl, true, Bool, none, some, [], codes}
use high_concurrency_server.Clear.{
  Answers, TextFile, is_text_file, replace_all, process_file, replacements,
}
use high_concurrency_server.Clear.Replace.{scan, replace_all-scan}
use high_concurrency_server.Clear.Backup.{Safe, process_file-Safe}

abbrev page : TextFile
page = record { content = codes "<a href=http://ymgal.games/x>http://ymgal.games"; backup = none }

abbrev all_work : Answers
all_work = record { copies = true; opens = true; writable = true; remains = none; short = none }

-- The disk is full.
abbrev disk_full : Answers
disk_full = record all_work { short = some 0 }

replace_all-scan_example :
    replace_all (codes "aXbXX") (codes "X") (codes "yX")
    ≡ some (scan (codes "X") (codes "yX") 0 (codes "aXbXX"))
replace_all-scan_example = replace_all-scan (codes "aXbXX") (codes "X") (codes "yX") (λ e. cc)

scanned : scan (codes "X") (codes "yX") 0 (codes "aXbXX") ≡ codes "ayXbyXyX"
unfolding scan
scanned = refl

process_file-Safe_example :
    (f' : TextFile) × (r : Bool) × (process_file all_work (replacements []) true page
      ≡ some (f', r))
    × Safe all_work (replacements []) page f' r
process_file-Safe_example = process_file-Safe all_work (replacements []) page

page_cleared :
    process_file all_work (replacements []) true page
    ≡ some (record { content = codes "<a href=/x>"; backup = some page.content }, true)
unfolding process_file replacements
page_cleared = refl

-- The content is lost without a word, but for the backup.
page_lost :
    process_file disk_full (replacements []) true page
    ≡ some (record { content = []; backup = some page.content }, true)
unfolding process_file replacements
page_lost = refl

html_is_text : is_text_file (codes ".HtMl") ≡ true
unfolding is_text_file
html_is_text = refl
