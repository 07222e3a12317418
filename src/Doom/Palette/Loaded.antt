-- ===== src/Doom/Palette/Loaded.antt =====
-- ffi/mod.rs: `load_playpal` reads within its bytes and programs the whole palette or nothing.
use molt_os.Prelude.{ℕ, ◌+◌, ◌*◌, ◌/◌, ◌<◌, ◌≡◌, get_elem?, some, List, [], length, Checked, ok}
use molt_os.Disk.Archive.{slice}

-- Entry `index` is programmed by the four writes from `4 * j` on, with the colours of the bytes from
-- `3 * j` on, each to 6 bits.
pub record IsEntry (index j : ℕ) (bytes : List ℕ) (ws : List (ℕ × ℕ)) : Type 0 where
  pub red : ℕ
  pub green : ℕ
  pub blue : ℕ
  pub red_byte : get_elem? bytes (j * 3) ≡ some red
  pub green_byte : get_elem? bytes (j * 3 + 1) ≡ some green
  pub blue_byte : get_elem? bytes (j * 3 + 2) ≡ some blue
  pub selects : get_elem? ws (j * 4) ≡ some (0x3c8, index)
  pub writes_red : get_elem? ws (j * 4 + 1) ≡ some (0x3c9, red / 4)
  pub writes_green : get_elem? ws (j * 4 + 2) ≡ some (0x3c9, green / 4)
  pub writes_blue : get_elem? ws (j * 4 + 3) ≡ some (0x3c9, blue / 4)

-- The port writes of a load from `wad`: none, or those of the 256 entries, with the colours of 768
-- bytes of it.
pub data Loaded (wad : List ℕ) (m : Checked (List (ℕ × ℕ))) : Type 0 where
  untouched : m ≡ ok [] → Loaded wad m
  programmed :
      (start : ℕ) (palette : List ℕ) (ws : List (ℕ × ℕ))
      → m ≡ ok ws
      → slice wad start (start + 768) ≡ ok palette
      → length ws ≡ 256 * 4
      → ((i : ℕ) → i < 256 → IsEntry i i palette ws)
      → Loaded wad m
