-- ===== src/Vga/Mode13.antt =====
-- src/vga_mode13.rs: the switch of the display to mode 13h. The card behind the ports is a parameter,
-- as the drive of src/ata.rs is; the bytes of the frame buffer are a function of the address.
pub mod Card
pub mod Registers
pub mod Entered
use molt_os.Prelude.{
  ℕ, zero, suc, ◌+◌, ◌*◌, ◌%◌, Bool, ◌&&◌, ltb, leb, if◌then◌else◌, List, [], ◌∷◌,
}
use molt_os.Disk.Ata.{Ports}
use molt_os.Memory.Mapping.{fb_addr}

abbrev pub width : ℕ
width = 320

abbrev pub height : ℕ
height = 200

abbrev pub misc_write : ℕ
misc_write = 0x3c2

abbrev pub seq_index : ℕ
seq_index = 0x3c4

abbrev pub seq_data : ℕ
seq_data = 0x3c5

abbrev pub crtc_index : ℕ
crtc_index = 0x3d4

abbrev pub crtc_data : ℕ
crtc_data = 0x3d5

abbrev pub gc_index : ℕ
gc_index = 0x3ce

abbrev pub gc_data : ℕ
gc_data = 0x3cf

abbrev pub ac_port : ℕ
ac_port = 0x3c0

abbrev pub input_status1 : ℕ
input_status1 = 0x3da

-- The registers that `set_mode` writes, each an index and its value.
abbrev pub seq_registers : List (ℕ × ℕ)
seq_registers = (0x00, 0x03) ∷ (0x01, 0x01) ∷ (0x02, 0x0f) ∷ (0x03, 0x00) ∷ (0x04, 0x0e) ∷ []

abbrev pub crtc_registers : List (ℕ × ℕ)
crtc_registers =
    (0x00, 0x5f)
    ∷ (0x01, 0x4f)
    ∷ (0x02, 0x50)
    ∷ (0x03, 0x82)
    ∷ (0x04, 0x54)
    ∷ (0x05, 0x80)
    ∷ (0x06, 0xbf)
    ∷ (0x07, 0x1f)
    ∷ (0x08, 0x00)
    ∷ (0x09, 0x41)
    ∷ (0x0a, 0x00)
    ∷ (0x0b, 0x00)
    ∷ (0x0c, 0x00)
    ∷ (0x0d, 0x00)
    ∷ (0x0e, 0x00)
    ∷ (0x0f, 0x00)
    ∷ (0x10, 0x9c)
    ∷ (0x11, 0x0e)
    ∷ (0x12, 0x8f)
    ∷ (0x13, 0x28)
    ∷ (0x14, 0x40)
    ∷ (0x15, 0x96)
    ∷ (0x16, 0xb9)
    ∷ (0x17, 0xa3)
    ∷ (0x18, 0xff)
    ∷ []

abbrev pub gc_registers : List (ℕ × ℕ)
gc_registers =
    (0x00, 0x00)
    ∷ (0x01, 0x00)
    ∷ (0x02, 0x00)
    ∷ (0x03, 0x00)
    ∷ (0x04, 0x00)
    ∷ (0x05, 0x40)
    ∷ (0x06, 0x05)
    ∷ (0x07, 0x0f)
    ∷ (0x08, 0xff)
    ∷ []

-- The identity map of the palette, for `n` entries from `i` on.
abbrev pub identity_map : ℕ → ℕ → List (ℕ × ℕ)
identity_map zero i = []
identity_map (suc n) i = (i, i) ∷ identity_map n (suc i)

-- The attribute controller's registers after the palette.
abbrev pub ac_registers : List (ℕ × ℕ)
ac_registers = (0x10, 0x41) ∷ (0x11, 0x00) ∷ (0x12, 0x0f) ∷ (0x13, 0x00) ∷ (0x14, 0x00) ∷ []

module _ {D : Type 0} (ports : Ports D) where
  unfoldable pub write_indexed : ℕ → ℕ → List (ℕ × ℕ) → D → D
  write_indexed index_port data_port [] d = d
  write_indexed index_port data_port ((i, v) ∷ regs) d =
      write_indexed index_port data_port regs (ports.write data_port v (ports.write index_port i d))

  -- `cr11 & !0x80` of a byte, written back.
  unfoldable pub unlock_crtc : D → D
  unlock_crtc d =
      let r = ports.read crtc_data (ports.write crtc_index 0x11 d) in
      ports.write crtc_data (r.0 % 128) r.1

  -- Both loops and the single writes to the attribute controller: index and data by turns.
  unfoldable pub write_ac : List (ℕ × ℕ) → D → D
  write_ac [] d = d
  write_ac ((i, v) ∷ regs) d = write_ac regs (ports.write ac_port v (ports.write ac_port i d))

  unfoldable pub set_ac : D → D
  set_ac d =
      ports.write ac_port 0x20
        (write_ac ac_registers (write_ac (identity_map 16 0) (ports.read input_status1 d).1))

  unfoldable pub set_mode : D → D
  set_mode d =
      let d1 = write_indexed seq_index seq_data seq_registers (ports.write misc_write 0x63 d) in
      let d2 = write_indexed crtc_index crtc_data crtc_registers (unlock_crtc d1) in
      set_ac (write_indexed gc_index gc_data gc_registers d2)

-- `[u8]::fill` of the frame buffer.
unfoldable pub fill : ℕ → (ℕ → ℕ) → ℕ → ℕ
fill v memory addr =
    if leb fb_addr addr && ltb addr (fb_addr + width * height) then v else memory addr

unfoldable pub enter_mode13 : {D : Type 0} → Ports D → D → (ℕ → ℕ) → D × (ℕ → ℕ)
enter_mode13 ports d memory = (set_mode ports d, fill 0 memory)
