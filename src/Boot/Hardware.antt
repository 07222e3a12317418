-- ===== src/Boot/Hardware.antt =====
-- `init` of src/lib.rs: the set-up of the hardware before `kernel_main` goes on.
use molt_os.Prelude.{
  ℕ, zero, suc, ◌+◌, ◌-◌, ◌*◌, ◌/◌, ◌%◌, ◌^◌, ◌≡◌, ◌≤◌, ◌<◌, refl, List, [], ◌∷◌, ◌++◌, map,
  Checked, ok, ◌>>=◌, arith,
}
use molt_os.Interrupts.{InterruptIndex, timer, keyboard, as_u8, pic_1_offset, configure_pit}

-- What `init` does to the hardware: the two descriptor tables, the calls of the interrupt controllers'
-- crate, a byte to a port, the control registers, and `sti`.
pub data Action : Type 0 where
  load_gdt load_idt initialize enable : Action
  write_masks : (pic1 pic2 : ℕ) → Action
  port_write : ℕ × ℕ → Action
  mov_cr0 mov_cr4 : ℕ → Action

-- `0xFF & !((1 << 0) | (1 << 1))`: the two bits are set in 0xFF.
abbrev pub pic1_mask : ℕ
pic1_mask = 0xFF - (2 ^ 0 + 2 ^ 1)

-- `and rax, ~(1 << 2)`, then `or rax, (1 << 1)`.
abbrev pub clear_em : ℕ → ℕ
clear_em a = a - a / 4 % 2 * 4

abbrev pub set_mp : ℕ → ℕ
set_mp a = a + (1 - a / 2 % 2) * 2

-- `or rax, (3 << 9)`.
abbrev pub set_osfxsr : ℕ → ℕ
set_osfxsr a = a + (3 - a / 512 % 4) * 512

-- The actions in order, where the control registers hold `cr0` and `cr4`.
unfoldable pub init : ℕ → ℕ → Checked (List Action)
init cr0 cr4 = do
  pit ← configure_pit 100
  ok (
      load_gdt
      ∷ load_idt
      ∷ initialize
      ∷ (map port_write pit
          ++ (write_masks pic1_mask 0xFF
              ∷ mov_cr0 (set_mp (clear_em cr0))
              ∷ mov_cr4 (set_osfxsr cr4)
              ∷ enable
              ∷ [])))

-- The interrupts of the first controller that a mask lets through are the timer's and the keyboard's.
abbrev pub LetsThrough : ℕ → Type 0
LetsThrough mask =
    ((n : InterruptIndex) → mask / 2 ^ (as_u8 n - pic_1_offset) % 2 ≡ 0)
    × ((i : ℕ) → i < 8 → mask / 2 ^ i % 2 ≡ 0 → (n : InterruptIndex) × (as_u8 n ≡ pic_1_offset + i))

pic1_mask-LetsThrough : LetsThrough pic1_mask
pic1_mask-LetsThrough = (handled, only)
  where
    handled : (n : InterruptIndex) → pic1_mask / 2 ^ (as_u8 n - pic_1_offset) % 2 ≡ 0
    handled timer = refl
    handled keyboard = refl

    masked : (i : ℕ) → i < 6 → pic1_mask / 2 ^ suc (suc i) % 2 ≡ 1
    masked zero room = refl
    masked (suc zero) room = refl
    masked (suc (suc zero)) room = refl
    masked (suc (suc (suc zero))) room = refl
    masked (suc (suc (suc (suc zero)))) room = refl
    masked (suc (suc (suc (suc (suc zero))))) room = refl
    masked (suc (suc (suc (suc (suc (suc i)))))) room = absurd (omega arith)

    only :
        (i : ℕ)
        → i < 8
        → pic1_mask / 2 ^ i % 2 ≡ 0
        → (n : InterruptIndex) × (as_u8 n ≡ pic_1_offset + i)
    only zero room e = (timer, refl)
    only (suc zero) room e = (keyboard, refl)
    only (suc (suc i)) room e = absurd (omega (arith, e, masked i (omega (arith, room))))

-- What is to be done from `cr0` and `cr4`: interrupts are enabled last, when the timer runs at 100 ticks
-- a second, just the timer and the keyboard are let through and the second controller is shut off. Of
-- CR0 no bit changes but EM, which is 0 then, and MP, which is 1, and of CR4 none but the two for SSE,
-- which are 1.
abbrev pub Prepared : ℕ → ℕ → Checked (List Action) → Type 0
Prepared cr0 cr4 done =
    (low : ℕ) × (high : ℕ) × (mask : ℕ) × (a : ℕ) × (b : ℕ) × (done
      ≡ ok (
          load_gdt
          ∷ load_idt
          ∷ initialize
          ∷ port_write (0x43, 0x34)
          ∷ port_write (0x40, low)
          ∷ port_write (0x40, high)
          ∷ write_masks mask 0xFF
          ∷ mov_cr0 a
          ∷ mov_cr4 b
          ∷ enable
          ∷ []))
    × (low < 256)
    × (high < 256)
    × ((low + 256 * high) * 100 ≤ 1193182)
    × (1193182 < (low + 256 * high + 1) * 100)
    × LetsThrough mask
    × (a % 2 ≡ cr0 % 2)
    × (a / 2 % 4 ≡ 1)
    × (a / 8 ≡ cr0 / 8)
    × (b % 512 ≡ cr4 % 512)
    × (b / 512 % 4 ≡ 3)
    × (b / 2048 ≡ cr4 / 2048)

-- `init` does not panic, and prepares the hardware from whatever the control registers hold: it enables
-- interrupts last, after the timer's rate, the masks and the bits for SSE.
pub init-Prepared : (cr0 cr4 : ℕ) → Prepared cr0 cr4 (init cr0 cr4)
unfolding init configure_pit
init-Prepared cr0 cr4 = (
  155,
  46,
  pic1_mask,
  set_mp (clear_em cr0),
  set_osfxsr cr4,
  refl,
  omega arith,
  omega arith,
  omega arith,
  omega arith,
  pic1_mask-LetsThrough,
  omega arith,
  omega arith,
  omega arith,
  omega arith,
  omega arith,
  omega arith,
)
