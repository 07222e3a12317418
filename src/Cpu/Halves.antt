-- ===== src/Cpu/Halves.antt =====
-- context.rs: `context_switch` as two halves, of which the first saves and the second resumes.
use molt_os.Prelude.{
  ℕ, ◌+◌, ◌-◌, ◌≤◌, ◌<◌, ◌≡◌, ◌≢◌, refl, sym, ap, subst, ◌∙◌, ◌==◌, false, arith, word, List, [],
  ◌∷◌, ◌++◌,
}
use molt_os.Cpu.{
  Register, rax, rbx, rsp, rbp, rsi, rdi, r12, r13, r14, r15, Cpu, Instruction, pushfq, pop_at, cli,
  save, load, mov, step, exec, add8, sub8,
}
use molt_os.Cpu.Words.{add-==-add, differ, store_self}
use molt_os.Cpu.Context.{ThreadContext, context_at, context_switch, context_switch_to, offset}
use molt_os.Cpu.Resume.{Outside, HasStack, context_switch_to-Resumed}

-- The registers that a callee preserves.
pub data IsCalleeSaved : Register → Type 0 where
  saves_rbx : IsCalleeSaved rbx
  saves_rbp : IsCalleeSaved rbp
  saves_r12 : IsCalleeSaved r12
  saves_r13 : IsCalleeSaved r13
  saves_r14 : IsCalleeSaved r14
  saves_r15 : IsCalleeSaved r15

-- The first half of `context_switch`; the second is `context_switch_to` with `new` in `rdi`.
unfoldable pub save_half : List Instruction
save_half =
    pushfq
    ∷ pop_at rdi 136
    ∷ cli
    ∷ save rdi 0 rsp
    ∷ load rax rsp 0
    ∷ save rdi 8 rax
    ∷ save rdi 16 rbx
    ∷ save rdi 24 rbp
    ∷ save rdi 32 r12
    ∷ save rdi 40 r13
    ∷ save rdi 48 r14
    ∷ save rdi 56 r15
    ∷ mov rdi rsi
    ∷ []

pub context_switch-halves : context_switch ≡ save_half ++ context_switch_to
unfolding context_switch save_half context_switch_to
context_switch-halves = refl

pub exec-append : (p q : List Instruction) (s : Cpu) → exec (p ++ q) s ≡ exec q (exec p s)
unfolding exec
exec-append [] q s = refl
exec-append (i ∷ p) q s = exec-append p q (step i s)

-- What the caller has to have room for: the word below its stack, where the flags go, and its return
-- address are none of the context's.
pub record CanYield (s : Cpu) : Type 0 where
  pub room : 8 ≤ s.registers rsp
  pub in_word : s.registers rsp + 8 < word
  pub flags_apart : Outside (s.registers rdi) (s.registers rsp - 8)
  pub return_apart : Outside (s.registers rdi) (s.registers rsp)

-- The context that is saved: the caller's stack, return address and flags, and the registers that it
-- relies on.
pub record Saved (s : Cpu) (c : ThreadContext) : Type 0 where
  pub stack : c.registers rsp ≡ s.registers rsp
  pub address : c.rip ≡ s.memory (s.registers rsp)
  pub flags : c.rflags ≡ s.rflags
  pub preserved : (r : Register) → IsCalleeSaved r → c.registers r ≡ s.registers r

save_half-preserved :
    (s : Cpu) (r : Register)
    → IsCalleeSaved r
    → (exec save_half s).memory (s.registers rdi + offset r) ≡ s.registers r
unfolding exec step save_half
save_half-preserved s _ saves_rbx = simp add-==-add
save_half-preserved s _ saves_rbp = simp add-==-add
save_half-preserved s _ saves_r12 = simp add-==-add
save_half-preserved s _ saves_r13 = simp add-==-add
save_half-preserved s _ saves_r14 = simp add-==-add
save_half-preserved s _ saves_r15 = simp add-==-add

pub save_half-Saved :
    (s : Cpu) → CanYield s → Saved s (context_at (exec save_half s).memory (s.registers rdi))
unfolding exec step save_half
save_half-Saved s h =
    let old : ℕ = s.registers rdi in
    let slot : ℕ = sub8 (s.registers rsp) in
    let below : slot ≡ s.registers rsp - 8 = omega (arith, h.room, h.in_word) in
    let back : add8 slot ≡ s.registers rsp = omega (arith, h.room, h.in_word) in
    let same : add8 slot + 0 ≡ s.registers rsp = omega (arith, back) in
    let other = λ (k : ℕ) (lt : k < 144).
      differ (add8 slot + 0) (old + k) (λ e. h.return_apart k lt (sym e ∙ same)) in
    let flags_apart : (add8 slot + 0 == slot) ≡ false =
      differ (add8 slot + 0) slot (λ e. omega (arith, same, below, e, h.room)) in
    record {
      stack = simp add-==-add back;
      address =
          simp (add-==-add, other 0 (omega arith), other 136 (omega arith), flags_apart)
            (ap s.memory same);
      flags = simp add-==-add (store_self s.memory slot s.rflags);
      preserved = λ r c. save_half-preserved s r c;
    }

-- The first half changes nothing outside the context and the word below the stack.
pub save_half-others :
    (s : Cpu) (a : ℕ)
    → CanYield s
    → Outside (s.registers rdi) a
    → a ≢ s.registers rsp - 8
    → (exec save_half s).memory a ≡ s.memory a
unfolding exec step save_half
save_half-others s a h out ne =
    let slot : ℕ = sub8 (s.registers rsp) in
    let below : slot ≡ s.registers rsp - 8 = omega (arith, h.room, h.in_word) in
    let n = λ (k : ℕ) (lt : k < 144). differ a (s.registers rdi + k) (λ e. out k lt (sym e)) in
    simp (
      n 0 (omega arith),
      n 8 (omega arith),
      n 16 (omega arith),
      n 24 (omega arith),
      n 32 (omega arith),
      n 40 (omega arith),
      n 48 (omega arith),
      n 56 (omega arith),
      n 136 (omega arith),
      differ a slot (λ e. ne (e ∙ below)),
    )

-- The context at `new` can be switched to: it is another than the caller's, and the word below its
-- stack is neither in the caller's context nor the caller's return address.
pub record CanSwitch (s : Cpu) : Type 0 where
  pub yields : CanYield s
  pub stack : HasStack (s.registers rsi) (s.memory (s.registers rsi + 0))
  pub contexts_apart : Outside (s.registers rdi) (s.registers rsi + 0)
  pub saved_apart : s.registers rsi + 0 ≢ s.registers rsp - 8
  pub old_apart : Outside (s.registers rdi) (s.memory (s.registers rsi + 0) - 8)
  pub return_apart : s.registers rsp ≢ s.memory (s.registers rsi + 0) - 8

pub save_half-registers : (s : Cpu) → (exec save_half s).registers rdi ≡ s.registers rsi
unfolding exec step save_half
save_half-registers s = refl

-- The stack pointer of the context at `new` is still there after the first half.
pub save_half-top :
    (s : Cpu)
    → CanSwitch s
    → (exec save_half s).memory ((exec save_half s).registers rdi + 0)
      ≡ s.memory (s.registers rsi + 0)
save_half-top s h =
    ap (λ a. (exec save_half s).memory (a + 0)) (save_half-registers s)
    ∙ save_half-others s (s.registers rsi + 0) h.yields h.contexts_apart h.saved_apart

-- After the whole switch the memory is as the first half left it, but for the word below the stack
-- that is switched to.
pub switched-others :
    (s : Cpu) (a : ℕ)
    → CanSwitch s
    → a ≢ s.memory (s.registers rsi + 0) - 8
    → (exec context_switch s).memory a ≡ (exec save_half s).memory a
switched-others s a h ne =
    let u : Cpu = exec save_half s in
    let top : u.memory (u.registers rdi + 0) ≡ s.memory (s.registers rsi + 0) = save_half-top s h in
    let stack : HasStack (u.registers rdi) (u.memory (u.registers rdi + 0)) =
      subst (λ t. HasStack (u.registers rdi) t) (sym top)
        (subst (λ r. HasStack r (s.memory (s.registers rsi + 0))) (sym (save_half-registers s))
          h.stack) in
    ap (λ is. (exec is s).memory a) context_switch-halves
    ∙ ap (λ c. c.memory a) (exec-append save_half context_switch_to s)
    ∙ (context_switch_to-Resumed u stack).others a (λ e. ne (e ∙ ap (λ t. t - 8) top))
