-- ===== src/Vga/Mode13/Card.antt =====
-- What the VGA documents of its registers, as src/vga_mode13.rs relies on it.
use molt_os.Prelude.{
  ℕ, ◌+◌, ◌-◌, ◌*◌, ◌/◌, ◌%◌, ◌≡◌, Bool, true, false, ◌&&◌, ◌==◌, ltb, leb, if◌then◌else◌,
}
use molt_os.Disk.Ata.{Ports}
use molt_os.Vga.Mode13.{
  misc_write, seq_index, seq_data, crtc_index, crtc_data, gc_index, gc_data, ac_port, input_status1,
}

-- The register banks with their indexes; `data_next` is the flip-flop of the attribute controller.
pub record Card : Type 0 where
  pub misc : ℕ
  pub seq_at : ℕ
  pub seq : ℕ → ℕ
  pub crtc_at : ℕ
  pub crtc : ℕ → ℕ
  pub gc_at : ℕ
  pub gc : ℕ → ℕ
  pub ac_at : ℕ
  pub ac : ℕ → ℕ
  pub data_next : Bool

abbrev pub put : (ℕ → ℕ) → ℕ → ℕ → ℕ → ℕ
put f i v j = if j == i then v else f j

-- Bit 7 of register 0x11 protects the registers 0 to 7, but for bit 4 of register 7.
unfoldable pub put_crtc : (ℕ → ℕ) → ℕ → ℕ → ℕ → ℕ
put_crtc f i v =
    if leb 128 (f 0x11) && ltb i 8
    then (if i == 7 then put f 7 (f 7 - f 7 / 16 % 2 * 16 + v / 16 % 2 * 16) else f)
    else put f i v

-- The first write after a read of the input status is an index, with bit 5 set to show the picture.
abbrev pub put_ac : ℕ → Card → Card
put_ac v c =
    if c.data_next
    then record c { ac = put c.ac (c.ac_at % 32) v; data_next = false }
    else record c { ac_at = v; data_next = true }

-- A card behind the ports: what writes and reads do to its registers.
pub record IsVga {D : Type 0} (ports : Ports D) : Type 0 where
  pub card : D → Card
  pub to_misc : (v : ℕ) (d : D) → card (ports.write misc_write v d) ≡ record (card d) { misc = v }
  pub to_seq_index :
      (v : ℕ) (d : D) → card (ports.write seq_index v d) ≡ record (card d) { seq_at = v }
  pub to_seq_data :
      (v : ℕ) (d : D)
      → card (ports.write seq_data v d)
        ≡ record (card d) { seq = put (card d).seq (card d).seq_at v }
  pub to_crtc_index :
      (v : ℕ) (d : D) → card (ports.write crtc_index v d) ≡ record (card d) { crtc_at = v }
  pub to_crtc_data :
      (v : ℕ) (d : D)
      → card (ports.write crtc_data v d)
        ≡ record (card d) { crtc = put_crtc (card d).crtc (card d).crtc_at v }
  pub to_gc_index :
      (v : ℕ) (d : D) → card (ports.write gc_index v d) ≡ record (card d) { gc_at = v }
  pub to_gc_data :
      (v : ℕ) (d : D)
      → card (ports.write gc_data v d) ≡ record (card d) { gc = put (card d).gc (card d).gc_at v }
  pub to_ac : (v : ℕ) (d : D) → card (ports.write ac_port v d) ≡ put_ac v (card d)
  pub from_crtc :
      (d : D)
      → ((ports.read crtc_data d).0 ≡ (card d).crtc (card d).crtc_at)
        × (card (ports.read crtc_data d).1 ≡ card d)
  pub from_status :
      (d : D) → card (ports.read input_status1 d).1 ≡ record (card d) { data_next = false }
