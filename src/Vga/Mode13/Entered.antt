-- ===== src/Vga/Mode13/Entered.antt =====
-- src/vga_mode13.rs: the registers after `set_mode`, whatever they were before.
use molt_os.Prelude.{
  ℕ, ◌+◌, ◌%◌, ◌≡◌, ◌<◌, refl, ap, ◌∙◌, true, false, ◌&&◌, ltb, leb, if◌then◌else◌, arith,
}
use molt_os.Disk.Ata.{Ports}
use molt_os.Memory.Mapping.{fb_addr}
use molt_os.Vga.Mode13.{
  misc_write, seq_index, seq_data, crtc_index, crtc_data, gc_index, gc_data, input_status1,
  seq_registers, crtc_registers, gc_registers, identity_map, ac_registers, write_indexed,
  unlock_crtc, write_ac, set_ac, set_mode, fill, enter_mode13,
}
use molt_os.Vga.Mode13.Card.{Card, put, put_ac, IsVga}
use molt_os.Vga.Mode13.Registers.{updates, Set, card-seq, card-gc, card-crtc, card-unlock, card-ac}

module _ {D : Type 0} (ports : Ports D) (vga : IsVga ports) where
  open vga use {card}

  -- Mode 13h: the values of the tables in all banks, and the picture shown.
  pub record IsMode13 (c : Card) : Type 0 where
    pub misc : c.misc ≡ 0x63
    pub seq : Set c.seq seq_registers
    pub crtc : Set c.crtc crtc_registers
    pub gc : Set c.gc gc_registers
    pub palette : Set c.ac (identity_map 16 0)
    pub ac : Set c.ac ac_registers
    pub shown : c.ac_at ≡ 0x20

  unlocked : (d : D) → (card (unlock_crtc ports d)).crtc 0x11 < 128
  unlocked d = rw (card-unlock ports vga d) (omega arith)

  set_ac-Set :
      (d : D)
      → card (set_ac ports d) ≡ record (card d) {
        ac = updates (updates (card d).ac (identity_map 16 0)) ac_registers;
        ac_at = 0x20;
        data_next = true;
      }
  unfolding set_ac
  set_ac-Set d =
      let d1 = (ports.read input_status1 d).1 in
      let e1 = vga.from_status d in
      let d2 = write_ac ports (identity_map 16 0) d1 in
      let e2 : card d2 ≡ record (card d) {
        ac = updates (card d).ac (identity_map 16 0);
        ac_at = 15;
        data_next = false;
      } =
        card-ac ports vga (identity_map 16 0) d1 (ap (λ (c : Card). c.data_next) e1) refl
        ∙ ap {B = Card}
            (λ (c : Card). record c {
              ac = updates c.ac (identity_map 16 0);
              ac_at = 15;
              data_next = false;
            })
            e1 in
      let d3 = write_ac ports ac_registers d2 in
      let e3 : card d3 ≡ record (card d) {
        ac = updates (updates (card d).ac (identity_map 16 0)) ac_registers;
        ac_at = 0x14;
        data_next = false;
      } =
        card-ac ports vga ac_registers d2 (ap (λ (c : Card). c.data_next) e2) refl
        ∙ ap {B = Card}
            (λ (c : Card). record c {
              ac = updates c.ac ac_registers;
              ac_at = 0x14;
              data_next = false;
            })
            e2 in
      vga.to_ac 0x20 d3 ∙ ap (put_ac 0x20) e3

  set_mode-card :
      (d : D)
      → card (set_mode ports d) ≡ record (card d) {
        misc = 0x63;
        seq = updates (card d).seq seq_registers;
        seq_at = 4;
        crtc = updates (put (card d).crtc 0x11 ((card d).crtc 0x11 % 128)) crtc_registers;
        crtc_at = 0x18;
        gc = updates (card d).gc gc_registers;
        gc_at = 8;
        ac = updates (updates (card d).ac (identity_map 16 0)) ac_registers;
        ac_at = 0x20;
        data_next = true;
      }
  unfolding set_mode
  set_mode-card d =
      let d0 = ports.write misc_write 0x63 d in
      let d1 = write_indexed ports seq_index seq_data seq_registers d0 in
      let d2 = unlock_crtc ports d1 in
      let d3 = write_indexed ports crtc_index crtc_data crtc_registers d2 in
      let d4 = write_indexed ports gc_index gc_data gc_registers d3 in
      let e1 : card d1
          ≡ record (card d) { misc = 0x63; seq = updates (card d).seq seq_registers; seq_at = 4 } =
        card-seq ports vga seq_registers d0
        ∙ ap {B = Card} (λ (c : Card). record c { seq = updates c.seq seq_registers; seq_at = 4 })
            (vga.to_misc 0x63 d) in
      let e2 = card-unlock ports vga d1 in
      let e3 = card-crtc ports vga crtc_registers d2 (unlocked d1) refl in
      let e4 = card-gc ports vga gc_registers d3 in
      let e5 = set_ac-Set d4 in rw (e5, e4, e3, e2, e1) refl

  -- Whatever the registers were, also the protection of the CRTC and the flip-flop of the attribute
  -- controller, `enter_mode13` leaves every register of the tables with its value, the identity
  -- palette, the picture shown and the frame buffer black; no other byte of memory changes.
  pub enter_mode13-IsMode13 :
      (d : D) (memory : ℕ → ℕ)
      → IsMode13 (card (enter_mode13 ports d memory).0)
        × ((addr : ℕ)
            → (enter_mode13 ports d memory).1 addr
              ≡ (if leb fb_addr addr && ltb addr (fb_addr + 64000) then 0 else memory addr))
  unfolding enter_mode13 fill
  enter_mode13-IsMode13 d memory = (
    rw (set_mode-card d) (record {
      misc = refl;
      seq = omega arith;
      crtc = omega arith;
      gc = omega arith;
      palette = omega arith;
      ac = omega arith;
      shown = refl;
    }),
    λ addr. refl,
  )
