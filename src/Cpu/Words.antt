-- ===== src/Cpu/Words.antt =====
-- Arithmetic of addresses and flags.
use molt_os.Prelude.{
  ℕ, ◌+◌, ◌-◌, ◌≤◌, ◌<◌, ◌≡◌, ◌≢◌, ◌⊎◌, inl, inr, refl, ap, ◌==◌, false, arith, word,
}
use molt_os.Cpu.{
  Register, rax, rcx, rdx, rbx, rsp, rbp, rsi, rdi, r8, r9, r10, r11, r12, r13, r14, r15, number,
  store, add8, sub8, clear_if, set_if,
}

-- Two words of one record are the same word if their offsets are the same.
pub add-==-add : (a i j : ℕ) → (a + i == a + j) ≡ (i == j)
add-==-add a i j = ground arith

pub differ : (a b : ℕ) → a ≢ b → (a == b) ≡ false
differ a b h = ground arith

pub sub8_lem : (a : ℕ) → 8 ≤ a → a < word → sub8 a ≡ a - 8
sub8_lem a h k = omega arith

pub add8_lem : (a : ℕ) → a + 8 < word → add8 a ≡ a + 8
add8_lem a h = omega arith

pub store_self : (m : ℕ → ℕ) (a v : ℕ) → store m a v a ≡ v
store_self m a v = ground arith

pub store_ne : (m : ℕ → ℕ) (a v b : ℕ) → b ≢ a → store m a v b ≡ m b
store_ne m a v b h = ground arith

pub set_if-clear_if : (flags : ℕ) → set_if (clear_if flags) ≡ set_if flags
set_if-clear_if flags = omega arith

-- Registers with other numbers are other registers.
pub by_number : (r q : Register) → number r ≢ number q → r ≢ q
by_number r q h e = h (ap number e)

pub rsp-cases : (r : Register) → (r ≡ rsp) ⊎ (r ≢ rsp)
rsp-cases rsp = inl refl
rsp-cases rax = inr (by_number rax rsp (omega arith))
rsp-cases rcx = inr (by_number rcx rsp (omega arith))
rsp-cases rdx = inr (by_number rdx rsp (omega arith))
rsp-cases rbx = inr (by_number rbx rsp (omega arith))
rsp-cases rbp = inr (by_number rbp rsp (omega arith))
rsp-cases rsi = inr (by_number rsi rsp (omega arith))
rsp-cases rdi = inr (by_number rdi rsp (omega arith))
rsp-cases r8 = inr (by_number r8 rsp (omega arith))
rsp-cases r9 = inr (by_number r9 rsp (omega arith))
rsp-cases r10 = inr (by_number r10 rsp (omega arith))
rsp-cases r11 = inr (by_number r11 rsp (omega arith))
rsp-cases r12 = inr (by_number r12 rsp (omega arith))
rsp-cases r13 = inr (by_number r13 rsp (omega arith))
rsp-cases r14 = inr (by_number r14 rsp (omega arith))
rsp-cases r15 = inr (by_number r15 rsp (omega arith))
