-- ===== src/Doom/Palette.antt =====
-- src/ffi/mod.rs and src/vga_mode13.rs: the palette of the game. Writes to ports are ports with bytes.
pub mod Loaded
use molt_os.Prelude.{
  ℕ, zero, suc, ◌+◌, ◌-◌, ◌*◌, ◌/◌, ◌%◌, ◌==◌, Bool, true, false, not, ◌&&◌, ◌||◌, ltb,
  if◌then◌else◌, Option, none, some, List, [], ◌∷◌, ◌++◌, length, take, ascii, Checked, ok, panic,
  ◌>>=◌, or_panic,
}
use molt_os.Disk.Archive.{slice, from_le_bytes, until_zero, same_bytes}

abbrev pub dac_index : ℕ
dac_index = 0x3c8

abbrev pub dac_data : ℕ
dac_data = 0x3c9

unfoldable pub set_palette_entry : ℕ → ℕ → ℕ → ℕ → List (ℕ × ℕ)
set_palette_entry index r g b =
    (dac_index, index) ∷ (dac_data, r / 4) ∷ (dac_data, g / 4) ∷ (dac_data, b / 4) ∷ []

-- The loop over the chunks of three bytes, from entry `index` on.
unfoldable pub set_palette : ℕ → List ℕ → List (ℕ × ℕ)
set_palette index [] = []
set_palette index (r ∷ []) = []
set_palette index (r ∷ g ∷ []) = []
set_palette index (r ∷ g ∷ b ∷ rest) =
    set_palette_entry (index % 256) r g b ++ set_palette (suc index) rest

-- The least size of the lump, and what is read of it.
abbrev pub palette_bytes : ℕ
palette_bytes = 768

-- A field of four bytes.
abbrev pub number_of : List ℕ → ℕ → Checked ℕ
number_of bytes a = slice bytes a (a + 4) >>= λ f. or_panic (from_le_bytes f)

-- The lump of the palette, of which `entry` is the entry in the directory.
unfoldable pub load_lump : List ℕ → List ℕ → Checked (List (ℕ × ℕ))
load_lump wad entry = do
  lump_off ← number_of entry 0
  lump_size ← number_of entry 4
  if ltb lump_size palette_bytes || ltb (length wad) (lump_off + palette_bytes)
      then ok []
      else (do palette ← slice wad lump_off (lump_off + palette_bytes); ok (set_palette 0 palette))

-- The body of the loop at an entry; `rest` is what the later entries give.
unfoldable pub load_entry : List ℕ → Checked (List (ℕ × ℕ)) → List ℕ → Checked (List (ℕ × ℕ))
load_entry wad rest entry = do
  name ← slice entry 8 16
  if same_bytes (until_zero name) (ascii "PLAYPAL") then load_lump wad entry else rest

-- The loop over `n` more entries of the directory, from entry `i` on.
unfoldable pub load_loop : List ℕ → ℕ → ℕ → ℕ → Checked (List (ℕ × ℕ))
load_loop wad dir_offset zero i = ok []
load_loop wad dir_offset (suc n) i =
    let rest = load_loop wad dir_offset n (suc i) in
    let base : ℕ = dir_offset + i * 16 in
    if ltb (length wad) (base + 16)
    then ok []
    else (slice wad base (base + 16) >>= load_entry wad rest)

-- `load_playpal`: the writes to the ports.
unfoldable pub load_playpal : List ℕ → Checked (List (ℕ × ℕ))
load_playpal wad = if ltb (length wad) 12 then ok [] else (do
  start ← slice wad 0 4
  if same_bytes start (ascii "IWAD") || same_bytes start (ascii "PWAD")
      then (do
        num_lumps ← number_of wad 4
        dir_offset ← number_of wad 8
        load_loop wad dir_offset num_lumps 0)
      else ok [])
