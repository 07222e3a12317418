-- ===== src/Vga/Mode13/Registers.antt =====
-- The loops of src/vga_mode13.rs on the registers of a card.
use molt_os.Prelude.{
  ℕ, ◌%◌, ◌≡◌, ◌<◌, refl, ap, ◌∙◌, Bool, true, false, not, ◌&&◌, ◌||◌, ◌==◌, ltb, leb, List, [],
  ◌∷◌, arith,
}
use molt_os.Disk.Ata.{Ports}
use molt_os.Vga.Mode13.{
  seq_index, seq_data, crtc_index, crtc_data, gc_index, gc_data, ac_port, write_indexed,
  unlock_crtc, write_ac,
}
use molt_os.Vga.Mode13.Card.{Card, put, put_crtc, put_ac, IsVga}

-- Registers after writes, and the index that stands after them.
abbrev pub updates : (ℕ → ℕ) → List (ℕ × ℕ) → ℕ → ℕ
updates f [] = f
updates f ((i, v) ∷ regs) = updates (put f i v) regs

abbrev pub last_index : ℕ → List (ℕ × ℕ) → ℕ
last_index at [] = at
last_index at ((i, v) ∷ regs) = last_index i regs

-- No register of the list sets the protection of the others.
abbrev pub is_open : List (ℕ × ℕ) → Bool
is_open [] = true
is_open ((i, v) ∷ regs) = (not (i == 0x11) || ltb v 128) && is_open regs

-- Indexes of the attribute controller.
abbrev pub are_indexes : List (ℕ × ℕ) → Bool
are_indexes [] = true
are_indexes ((i, v) ∷ regs) = ltb i 32 && are_indexes regs

-- Every register of the list has its value.
abbrev pub Set : (ℕ → ℕ) → List (ℕ × ℕ) → Type 0
Set f [] = Unit
Set f ((i, v) ∷ regs) = (f i ≡ v) × Set f regs

put_crtc-open : (f : ℕ → ℕ) (i v : ℕ) → f 0x11 < 128 → put_crtc f i v ≡ put f i v
unfolding put_crtc
put_crtc-open f i v h = let e : leb 128 (f 0x11) ≡ false = ground arith in rw e refl

module _ {D : Type 0} (ports : Ports D) (vga : IsVga ports) where
  open vga use {card}

  pub card-seq :
      (regs : List (ℕ × ℕ)) (d : D)
      → card (write_indexed ports seq_index seq_data regs d) ≡ record (card d) {
        seq = updates (card d).seq regs;
        seq_at = last_index (card d).seq_at regs;
      }
  unfolding write_indexed
  card-seq [] d = refl
  card-seq ((i, v) ∷ regs) d =
      let d1 = ports.write seq_index i d in
      let d2 = ports.write seq_data v d1 in
      let e : card d2 ≡ record (card d) { seq = put (card d).seq i v; seq_at = i } =
        vga.to_seq_data v d1
        ∙ ap {B = Card} (λ (c : Card). record c { seq = put c.seq c.seq_at v })
            (vga.to_seq_index i d) in
      card-seq regs d2
      ∙ ap {B = Card}
          (λ (c : Card). record c { seq = updates c.seq regs; seq_at = last_index c.seq_at regs }) e

  pub card-gc :
      (regs : List (ℕ × ℕ)) (d : D)
      → card (write_indexed ports gc_index gc_data regs d)
        ≡ record (card d) { gc = updates (card d).gc regs; gc_at = last_index (card d).gc_at regs }
  unfolding write_indexed
  card-gc [] d = refl
  card-gc ((i, v) ∷ regs) d =
      let d1 = ports.write gc_index i d in
      let d2 = ports.write gc_data v d1 in
      let e : card d2 ≡ record (card d) { gc = put (card d).gc i v; gc_at = i } =
        vga.to_gc_data v d1
        ∙ ap {B = Card} (λ (c : Card). record c { gc = put c.gc c.gc_at v })
            (vga.to_gc_index i d) in
      card-gc regs d2
      ∙ ap {B = Card}
          (λ (c : Card). record c { gc = updates c.gc regs; gc_at = last_index c.gc_at regs }) e

  pub card-crtc :
      (regs : List (ℕ × ℕ)) (d : D)
      → (card d).crtc 0x11 < 128
      → is_open regs ≡ true
      → card (write_indexed ports crtc_index crtc_data regs d) ≡ record (card d) {
        crtc = updates (card d).crtc regs;
        crtc_at = last_index (card d).crtc_at regs;
      }
  unfolding write_indexed
  card-crtc [] d h o = refl
  card-crtc ((i, v) ∷ regs) d h o =
      let d1 = ports.write crtc_index i d in
      let d2 = ports.write crtc_data v d1 in
      let e : card d2 ≡ record (card d) { crtc = put (card d).crtc i v; crtc_at = i } =
        vga.to_crtc_data v d1
        ∙ ap {B = Card} (λ (c : Card). record c { crtc = put_crtc c.crtc c.crtc_at v })
            (vga.to_crtc_index i d)
        ∙ ap {B = Card} (λ (f : ℕ → ℕ). record (card d) { crtc = f; crtc_at = i })
            (put_crtc-open (card d).crtc i v h) in
      let h' : (card d2).crtc 0x11 < 128 = rw e (ground arith) in
      card-crtc regs d2 h' (ground arith)
      ∙ ap {B = Card}
          (λ (c : Card). record c {
            crtc = updates c.crtc regs;
            crtc_at = last_index c.crtc_at regs;
          })
          e

  pub card-unlock :
      (d : D)
      → card (unlock_crtc ports d) ≡ record (card d) {
        crtc = put (card d).crtc 0x11 ((card d).crtc 0x11 % 128);
        crtc_at = 0x11;
      }
  unfolding unlock_crtc put_crtc
  card-unlock d =
      let d1 = ports.write crtc_index 0x11 d in
      let c1 = vga.to_crtc_index 0x11 d in
      let (value, same) = vga.from_crtc d1 in
      let r = ports.read crtc_data d1 in
      let value' : r.0 ≡ (card d).crtc 0x11 = value ∙ ap (λ (c : Card). c.crtc c.crtc_at) c1 in
      vga.to_crtc_data (r.0 % 128) r.1
      ∙ ap {B = Card} (λ (c : Card). record c { crtc = put_crtc c.crtc c.crtc_at (r.0 % 128) })
          (same ∙ c1)
      ∙ ap {B = Card} (λ (f : ℕ → ℕ). record (card d) { crtc = f; crtc_at = 0x11 })
          (free (card d).crtc (r.0 % 128) ∙ ap (λ n. put (card d).crtc 0x11 (n % 128)) value')
    where
      free : (f : ℕ → ℕ) (v : ℕ) → put_crtc f 0x11 v ≡ put f 0x11 v
      free f v = ground arith

  pub card-ac :
      (regs : List (ℕ × ℕ)) (d : D)
      → (card d).data_next ≡ false
      → are_indexes regs ≡ true
      → card (write_ac ports regs d) ≡ record (card d) {
        ac = updates (card d).ac regs;
        ac_at = last_index (card d).ac_at regs;
        data_next = false;
      }
  unfolding write_ac
  card-ac [] d h o = ap {B = Card} (λ (b : Bool). record (card d) { data_next = b }) h
  card-ac ((i, v) ∷ regs) d h o =
      let d1 = ports.write ac_port i d in
      let d2 = ports.write ac_port v d1 in
      let small : i % 32 ≡ i = ground arith in
      let c1 : card d1 ≡ record (card d) { ac_at = i; data_next = true } =
        vga.to_ac i d ∙ rw h refl in
      let e : card d2 ≡ record (card d) { ac = put (card d).ac i v; ac_at = i; data_next = false } =
        vga.to_ac v d1
        ∙ ap (put_ac v) c1
        ∙ ap {B = Card}
            (λ (n : ℕ). record (card d) { ac = put (card d).ac n v; ac_at = i; data_next = false })
            small in
      card-ac regs d2 (ap (λ (c : Card). c.data_next) e) (ground arith)
      ∙ ap {B = Card}
          (λ (c : Card). record c {
            ac = updates c.ac regs;
            ac_at = last_index c.ac_at regs;
            data_next = false;
          })
          e
