-- ===== src/Cpu/Stack.antt =====
-- src/thread/stack.rs: kernel stacks. The allocation is the heap's, so its address is an argument.
use molt_os.Prelude.{
  ℕ, ◌+◌, ◌-◌, ◌*◌, ◌/◌, ◌%◌, ◌==◌, Bool, true, ltb, leb, if◌then◌else◌, List, [], ◌∷◌, Checked, ok,
  ◌>>=◌, add64, sub64,
}
use molt_os.Cpu.{store}

abbrev pub stack_size : ℕ
stack_size = 16 * 1024

abbrev pub canary : ℕ
canary = 0xDEADC0DEDEADC0DE

-- `storage`: where it begins, and its length.
pub record KernelStack : Type 0 where
  pub start : ℕ
  pub size : ℕ

unfoldable pub write_canary : KernelStack → (ℕ → ℕ) → ℕ → ℕ
write_canary s m = if leb 8 s.size then store m s.start canary else m

-- `vec![0u8; size]`: the words that lie in the allocation are zero.
abbrev pub zeroed : ℕ → ℕ → (ℕ → ℕ) → ℕ → ℕ
zeroed start size m =
    λ b. if leb start b then (if leb (b + 8) (start + size) then 0 else m b) else m b

unfoldable pub with_size : ℕ → ℕ → (ℕ → ℕ) → KernelStack × (ℕ → ℕ)
with_size start size m =
    let s : KernelStack = record { start = start; size = size } in
    (s, write_canary s (zeroed start size m))

abbrev pub new : ℕ → (ℕ → ℕ) → KernelStack × (ℕ → ℕ)
new start m = with_size start stack_size m

unfoldable pub check_canary : KernelStack → (ℕ → ℕ) → Bool
check_canary s m = if ltb s.size 8 then true else (m s.start == canary)

-- `end & !16`: bit 4 is cleared.
abbrev pub clear_bit4 : ℕ → ℕ
clear_bit4 a = a - a / 16 % 2 * 16

unfoldable pub top : KernelStack → Checked ℕ
top s = do end ← add64 s.start s.size; sub64 (clear_bit4 end) 16

-- The writes to the fields of a context at `ctx`, in order.
unfoldable pub write_fields : ℕ → List (ℕ × ℕ) → (ℕ → ℕ) → ℕ → ℕ
write_fields ctx [] m = m
write_fields ctx (f ∷ fs) m = write_fields ctx fs (store m (ctx + f.0) f.1)

-- `init_context`: `entry_point` is written at the top of the stack.
unfoldable pub init_context : KernelStack → ℕ → ℕ → (ℕ → ℕ) → Checked (ℕ → ℕ)
init_context s ctx entry_point m = do
  t ← top s
  let entered : ℕ → ℕ = store m t entry_point
  ok (
      write_fields ctx
        ((0, t) ∷ (8, entry_point) ∷ (16, 0) ∷ (24, 0) ∷ (32, 0) ∷ (40, 0) ∷ (48, 0) ∷ (56, 0) ∷ [])
        entered)

-- `ThreadContext::default`, written to memory.
abbrev pub default_fields : List (ℕ × ℕ)
default_fields =
    (0, 0)
    ∷ (8, 0)
    ∷ (16, 0)
    ∷ (24, 0)
    ∷ (32, 0)
    ∷ (40, 0)
    ∷ (48, 0)
    ∷ (56, 0)
    ∷ (64, 0)
    ∷ (72, 0)
    ∷ (80, 0)
    ∷ (88, 0)
    ∷ (96, 0)
    ∷ (104, 0)
    ∷ (112, 0)
    ∷ (120, 0)
    ∷ (128, 0)
    ∷ (136, 0x202)
    ∷ []
