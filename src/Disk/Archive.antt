-- ===== src/Disk/Archive.antt =====
-- src/fs.rs: the archive that is read from the disk, and the search for a file in it.
pub mod Reports
pub mod Packed
pub mod Entry
pub mod Found
use molt_os.Prelude.{
  ℕ, zero, suc, ◌+◌, ◌-◌, ◌*◌, ◌/◌, ◌%◌, ◌^◌, min, ◌==◌, Bool, true, false, not, ◌&&◌, ◌||◌, ltb,
  leb, if◌then◌else◌, Option, none, some, List, [], ◌∷◌, ◌++◌, length, take, drop, Checked, ok,
  panic, ◌>>=◌, or_panic, add64, map,
}
use molt_os.Disk.Ata.{
  Ports, Drive, slave, AtaError, no_drive, disk_error, overflow, Result, done, err, read_all,
}

abbrev pub magic : List ℕ
magic = 0x43 ∷ 0x58 ∷ 0x46 ∷ 0x53 ∷ []

abbrev pub entry_size : ℕ
entry_size = 40

abbrev pub name_len : ℕ
name_len = 32

pub data FsError : Type 0 where
  fs_no_drive fs_disk_error bad_magic : FsError

abbrev pub from_ata : AtaError → FsError
from_ata no_drive = fs_no_drive
from_ata disk_error = fs_disk_error
from_ata overflow = fs_disk_error

-- `&bytes[a..b]`.
abbrev pub slice : List ℕ → ℕ → ℕ → Checked (List ℕ)
slice bytes a b =
    if leb a b && leb b (length bytes) then ok (take (b - a) (drop a bytes)) else panic

abbrev pub same_bytes : List ℕ → List ℕ → Bool
same_bytes [] [] = true
same_bytes [] (y ∷ ys) = false
same_bytes (x ∷ xs) [] = false
same_bytes (x ∷ xs) (y ∷ ys) = (x == y) && same_bytes xs ys

-- `u32::from_le_bytes`, of four bytes; of another number of them the conversion to an array fails.
abbrev pub from_le_bytes : List ℕ → Option ℕ
from_le_bytes (a ∷ b ∷ c ∷ d ∷ []) = some (a + b * 256 + c * 65536 + d * 16777216)
from_le_bytes xs = none

-- The outcome of `init` on the bytes that were read: the number of files, or `BadMagic`.
unfoldable pub accept : List ℕ → Checked (Result FsError ℕ)
accept bytes = if ltb (length bytes) 8 then ok (err bad_magic) else (do
  start ← slice bytes 0 4
  if same_bytes start magic
      then (do four ← slice bytes 4 8; count ← or_panic (from_le_bytes four); ok (done count))
      else ok (err bad_magic))

-- `ARCHIVE` once it is set; a second `init` leaves it.
abbrev pub keep_first : Option (List ℕ) → List ℕ → Option (List ℕ)
keep_first none bytes = some bytes
keep_first (some old) bytes = some old

abbrev pub after_accept :
    {D : Type 0}
    → Option (List ℕ)
    → List ℕ
    → D
    → Result FsError ℕ
    → Result FsError ℕ × Option (List ℕ) × D
after_accept archive bytes d (err e) = (err e, archive, d)
after_accept archive bytes d (done count) = (done count, keep_first archive bytes, d)

unfoldable pub init_with :
    {D : Type 0}
    → Option (List ℕ)
    → Result AtaError (List ℕ)
    → D
    → Checked (Result FsError ℕ × Option (List ℕ) × D)
init_with archive (err e) d = ok (err (from_ata e), archive, d)
init_with archive (done bytes) d = do r ← accept bytes; ok (after_accept archive bytes d r)

-- The most bytes that `init` reads.
abbrev pub max_bytes : ℕ
max_bytes = 6 * 1024 * 1024

-- The archive is the value of `ARCHIVE` before and after.
unfoldable pub init :
    {D : Type 0} → Ports D → Option (List ℕ) → D → Checked (Result FsError ℕ × Option (List ℕ) × D)
init ports archive d = do
  (result, d') ← read_all ports slave max_bytes d
  init_with archive result d'

-- The bytes that may follow a first byte of UTF-8, as ranges.
abbrev pub continuation : ℕ × ℕ
continuation = (0x80, 0xbf)

abbrev pub lead : ℕ → Option (List (ℕ × ℕ))
lead x =
    if ltb x 0x80
    then some []
    else if ltb x 0xc2
    then none
    else if ltb x 0xe0
    then some (continuation ∷ [])
    else if x == 0xe0
    then some ((0xa0, 0xbf) ∷ continuation ∷ [])
    else if x == 0xed
    then some ((0x80, 0x9f) ∷ continuation ∷ [])
    else if ltb x 0xf0
    then some (continuation ∷ continuation ∷ [])
    else if x == 0xf0
    then some ((0x90, 0xbf) ∷ continuation ∷ continuation ∷ [])
    else if ltb x 0xf4
    then some (continuation ∷ continuation ∷ continuation ∷ [])
    else if x == 0xf4
    then some ((0x80, 0x8f) ∷ continuation ∷ continuation ∷ [])
    else none

-- Whether `from_utf8` accepts the bytes, after a first byte that `ranges` must follow.
unfoldable pub utf8_from : List (ℕ × ℕ) → List ℕ → Bool
utf8_from [] [] = true
utf8_from (r ∷ rs) [] = false
utf8_from (r ∷ rs) (x ∷ xs) = leb r.0 x && leb x r.1 && utf8_from rs xs
utf8_from [] (x ∷ xs) = elim (lead x) [ none ↦ false | some rs ↦ utf8_from rs xs ]

abbrev pub to_ascii_lowercase : ℕ → ℕ
to_ascii_lowercase c = if leb 0x41 c && leb c 0x5a then c + 32 else c

abbrev pub eq_ignore_ascii_case : List ℕ → List ℕ → Bool
eq_ignore_ascii_case xs ys = same_bytes (map to_ascii_lowercase xs) (map to_ascii_lowercase ys)

-- The name up to its first zero byte.
abbrev pub until_zero : List ℕ → List ℕ
until_zero [] = []
until_zero (x ∷ xs) = if x == 0 then [] else x ∷ until_zero xs

-- The number_at of an entry as a number: the outer panic is the slice's, `none` the conversion's.
abbrev pub number_at : List ℕ → ℕ → ℕ → Checked (Option ℕ)
number_at entry a b = do f ← slice entry a b; ok (from_le_bytes f)

-- `&data[offset..offset + size]`.
abbrev pub contents : List ℕ → Option ℕ → Option ℕ → Checked (Option (List ℕ))
contents bytes none size = ok none
contents bytes (some offset) none = ok none
contents bytes (some offset) (some size) = do
  end ← add64 offset size
  file ← slice bytes offset end
  ok (some file)

unfoldable pub file_of : List ℕ → List ℕ → Checked (Option (List ℕ))
file_of bytes entry = do
  offset ← number_at entry 32 36
  size ← number_at entry 36 40
  contents bytes offset size

-- The body of the loop of `open` at an entry, with its name; `rest` is what the later entries give.
unfoldable pub open_named :
    List ℕ → List ℕ → Checked (Option (List ℕ)) → List ℕ → List ℕ → Checked (Option (List ℕ))
open_named bytes name rest entry entry_name = elim (utf8_from [] entry_name) [
  | false ↦ ok none
  | true ↦ elim (eq_ignore_ascii_case entry_name name) [ true ↦ file_of bytes entry | false ↦ rest ]
]

unfoldable pub open_entry :
    List ℕ → List ℕ → Checked (Option (List ℕ)) → List ℕ → Checked (Option (List ℕ))
open_entry bytes name rest entry =
    open_named bytes name rest entry (until_zero (take name_len entry))

-- The loop over `n` more entries, from entry `i` on.
unfoldable pub open_loop : List ℕ → List ℕ → ℕ → ℕ → Checked (Option (List ℕ))
open_loop bytes name zero i = ok none
open_loop bytes name (suc n) i =
    slice bytes (8 + i * entry_size) (8 + i * entry_size + entry_size)
    >>= open_entry bytes name (open_loop bytes name n (suc i))

abbrev pub open_counted : List ℕ → List ℕ → Option ℕ → Checked (Option (List ℕ))
open_counted bytes name none = ok none
open_counted bytes name (some count) = open_loop bytes name count 0

unfoldable pub open_in : List ℕ → List ℕ → Checked (Option (List ℕ))
open_in bytes name = do count ← number_at bytes 4 8; open_counted bytes name count

-- `open`: nothing is found before `init`.
abbrev pub open_file : Option (List ℕ) → List ℕ → Checked (Option (List ℕ))
open_file none name = ok none
open_file (some bytes) name = open_in bytes name
