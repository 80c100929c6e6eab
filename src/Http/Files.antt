-- ===== src/Http/Files.antt =====
-- ReadFile, WriteFile, IsDirectory and IsRegular of Uitl in Http/Http.hpp. The file system is an
-- interface: what `stat`, `ifstream::open` and `ifstream::read` give for a name.
use high_concurrency_server.Common.{
  ℕ, ◌≡◌, refl, zero, suc, Bool, true, false, Option, none, some, [], ◌∷◌, Bytes, bytes_eq,
  bytes_eq_refl, length, if◌then◌else◌,
}

pub record FileSystem : Type 0 where
  -- `S_ISDIR` and `S_ISREG` of the mode, when `stat` succeeds
  pub stat : Bytes → Option (Bool × Bool)
  -- the size, when the file opens
  pub open_size : Bytes → Option ℕ
  -- what `read` leaves in the buffer, and `good()`
  pub read : Bytes → Bytes × Bool

abbrev dir_bit : Option (Bool × Bool) → Bool
dir_bit none = false
dir_bit (some m) = m.0

abbrev reg_bit : Option (Bool × Bool) → Bool
reg_bit none = false
reg_bit (some m) = m.1

unfoldable pub is_directory : FileSystem → Bytes → Bool
is_directory fs filename = dir_bit (fs.stat filename)

unfoldable pub is_regular : FileSystem → Bytes → Bool
is_regular fs filename = reg_bit (fs.stat filename)

-- The buffer behind `ReadFile`, and its result, from the size of the file and what a read gives.
abbrev pub on_open : Bytes × Bool → Option ℕ → Bytes → Bytes × Bool
on_open r none buffer = (buffer, false)
on_open r (some zero) buffer = ([], true)
on_open r (some (suc n)) buffer = r

unfoldable pub read_file : FileSystem → Bytes → Bytes → Bytes × Bool
read_file fs filename buffer = on_open (fs.read filename) (fs.open_size filename) buffer

-- `WriteFile` into files by their names. `opens` is whether the file opens, which empties it, and
-- `short` what a write that fails leaves in it.
unfoldable pub write_file :
    Bool → Option Bytes → (Bytes → Option Bytes) → Bytes → Bytes → (Bytes → Option Bytes) × Bool
write_file false short files filename buffer = (files, false)
write_file true none files filename buffer =
    (λ f. if bytes_eq filename f then some buffer else files f, true)
write_file true (some part) files filename buffer =
    (λ f. if bytes_eq filename f then some part else files f, false)

-- The interface of files that hold these bytes, where every read gives all.
abbrev pub holding : (Bytes → Option Bytes) → FileSystem
holding files = record {
  stat = λ f. elim (files f) [ none ↦ none | some d ↦ some (false, true) ];
  open_size = λ f. elim (files f) [ none ↦ none | some d ↦ some (length d) ];
  read = λ f. elim (files f) [ none ↦ ([], false) | some d ↦ (d, true) ];
}

on_open-length : (d buffer : Bytes) → on_open (d, true) (some (length d)) buffer ≡ (d, true)
on_open-length [] buffer = refl
on_open-length (x ∷ d) buffer = refl

read_file-holding :
    (files : Bytes → Option Bytes) (filename d old : Bytes)
    → files filename ≡ some d
    → read_file (holding files) filename old ≡ (d, true)
unfolding read_file
read_file-holding files filename d old h = rw (h, holding) (on_open-length d old)

-- `ReadFile` gives back what `WriteFile` has written, the empty string included.
pub read_file-write_file :
    (files : Bytes → Option Bytes) (filename buffer old : Bytes)
    → read_file (holding (write_file true none files filename buffer).0) filename old
      ≡ (buffer, true)
unfolding write_file
read_file-write_file files filename buffer old =
    read_file-holding (write_file true none files filename buffer).0 filename buffer old
      (rw (bytes_eq_refl filename) refl)
