-- ===== src/Disk/Archive/Packed.antt =====
-- fs.rs: an archive of the documented format, built from files.
use molt_os.Prelude.{
  ℕ, ◌+◌, ◌-◌, ◌*◌, ◌/◌, ◌%◌, ◌≤◌, ◌<◌, if◌then◌else◌, Option, none, some, List, [], ◌∷◌, ◌++◌, All,
  length, replicate,
}
use molt_os.Disk.Archive.{magic, eq_ignore_ascii_case}

pub record File : Type 0 where
  pub name : List ℕ
  pub bytes : List ℕ

-- A number in four bytes, the lowest first.
abbrev pub le32 : ℕ → List ℕ
le32 n = n % 256 ∷ n / 256 % 256 ∷ n / 65536 % 256 ∷ n / 16777216 % 256 ∷ []

abbrev pub padded : List ℕ → List ℕ
padded name = name ++ replicate (32 - length name) 0

abbrev pub entry : File → ℕ → List ℕ
entry f offset = padded f.name ++ (le32 offset ++ (le32 (length f.bytes) ++ []))

-- The entries of files whose contents follow one another from `offset` on.
unfoldable pub entries : List File → ℕ → List ℕ
entries [] offset = []
entries (f ∷ fs) offset = entry f offset ++ entries fs (offset + length f.bytes)

unfoldable pub bodies : List File → List ℕ
bodies [] = []
bodies (f ∷ fs) = f.bytes ++ bodies fs

-- The archive of the files.
abbrev pub pack : List File → List ℕ
pack fs = magic ++ (le32 (length fs) ++ (entries fs (8 + length fs * 40) ++ ([] ++ bodies fs)))

-- The first file with the name, whatever the case of its letters.
unfoldable pub lookup : List File → List ℕ → Option (List ℕ)
lookup [] name = none
lookup (f ∷ fs) name =
    let rest = lookup fs name in if eq_ignore_ascii_case f.name name then some f.bytes else rest

-- A byte of a name: ASCII, and not zero.
abbrev pub IsNameByte : ℕ → Type 0
IsNameByte c = (0 < c) × (c < 128)

pub record IsFile (f : File) : Type 0 where
  pub short : length f.name ≤ 32
  pub name_bytes : All IsNameByte f.name
