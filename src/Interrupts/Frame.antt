-- ===== src/Interrupts/Frame.antt =====
-- interrupts.rs: the entry builds an `IrqFrame` of the interrupted state, and the pops and `iretq`
-- bring that state back.
use molt_os.Prelude.{
  ℕ, suc, ◌+◌, ◌-◌, ◌*◌, ◌%◌, ◌≤◌, ◌<◌, ◌≡◌, ◌≢◌, refl, ap, ◌∙◌, some, List, [], ◌∷◌, get_elem?,
  arith, word,
}
use molt_os.Cpu.{
  Register, rax, rcx, rdx, rbx, rsp, rbp, rsi, rdi, r8, r9, r10, r11, r12, r13, r14, r15, Cpu, set,
  step, exec,
}
use molt_os.Interrupts.{deliver, entry_pushes, frame_offset, frame_rip, frame_rflags}
use molt_os.Interrupts.Pushed.{push_words, push_words-rsp, push_words-above, push_words-at}

-- There is room for the frame, and for two words more, below the interrupted stack.
pub record HasFrame (s : Cpu) : Type 0 where
  pub room : 192 ≤ s.registers rsp
  pub in_word : s.registers rsp < word

-- The address of the frame.
abbrev pub frame_of : Cpu → ℕ
frame_of s = s.registers rsp - s.registers rsp % 16 - 160

-- Memory holds the frame of the state `s` at address `f`.
pub record IsFrame (s : Cpu) (f : ℕ) (m : ℕ → ℕ) : Type 0 where
  pub general : (r : Register) → r ≢ rsp → m (f + frame_offset r) ≡ s.registers r
  pub stack : m (f + frame_offset rsp) ≡ s.registers rsp
  pub address : m (f + frame_rip) ≡ s.rip
  pub flags : m (f + frame_rflags) ≡ s.rflags

frame_words : ℕ → ℕ → Cpu → List ℕ
frame_words cs ss s =
    ss
    ∷ s.registers rsp
    ∷ s.rflags
    ∷ cs
    ∷ s.rip
    ∷ s.registers r15
    ∷ s.registers r14
    ∷ s.registers r13
    ∷ s.registers r12
    ∷ s.registers r11
    ∷ s.registers r10
    ∷ s.registers r9
    ∷ s.registers r8
    ∷ s.registers rdi
    ∷ s.registers rsi
    ∷ s.registers rbp
    ∷ s.registers rbx
    ∷ s.registers rdx
    ∷ s.registers rcx
    ∷ s.registers rax
    ∷ []

aligned : Cpu → Cpu
aligned s = record s { registers = set s.registers rsp (s.registers rsp - s.registers rsp % 16) }

entry : ℕ → ℕ → Cpu → Cpu
entry cs ss s = exec entry_pushes (deliver cs ss s)

entry-memory :
    (cs ss : ℕ) (s : Cpu)
    → (entry cs ss s).memory ≡ (push_words (frame_words cs ss s) (aligned s)).memory
unfolding entry exec step entry_pushes deliver push_words frame_words aligned
entry-memory cs ss s = refl

entry-rsp :
    (cs ss : ℕ) (s : Cpu)
    → (entry cs ss s).registers rsp ≡ (push_words (frame_words cs ss s) (aligned s)).registers rsp
unfolding entry exec step entry_pushes deliver push_words frame_words aligned
entry-rsp cs ss s = refl

-- A word of the frame.
entry-at :
    (cs ss : ℕ) (s : Cpu) (i o v : ℕ)
    → HasFrame s
    → get_elem? (frame_words cs ss s) i ≡ some v
    → o + suc i * 8 ≡ 160
    → (entry cs ss s).memory (frame_of s + o) ≡ v
unfolding frame_words aligned
entry-at cs ss s i o v h at e =
    let top : ℕ = s.registers rsp - s.registers rsp % 16 in
    let same : frame_of s + o ≡ top - suc i * 8 = omega (arith, h.room, e) in
    ap (λ m. m (frame_of s + o)) (entry-memory cs ss s)
    ∙ ap (push_words (frame_words cs ss s) (aligned s)).memory same
    ∙ push_words-at (frame_words cs ss s) (aligned s) i v (omega (arith, h.room))
        (omega (arith, h.in_word)) at

entry-general :
    (cs ss : ℕ) (s : Cpu) (r : Register)
    → HasFrame s
    → r ≢ rsp
    → (entry cs ss s).memory (frame_of s + frame_offset r) ≡ s.registers r
unfolding frame_words
entry-general cs ss s rax h ne = entry-at cs ss s 19 0 _ h refl (omega arith)
entry-general cs ss s rcx h ne = entry-at cs ss s 18 8 _ h refl (omega arith)
entry-general cs ss s rdx h ne = entry-at cs ss s 17 16 _ h refl (omega arith)
entry-general cs ss s rbx h ne = entry-at cs ss s 16 24 _ h refl (omega arith)
entry-general cs ss s rbp h ne = entry-at cs ss s 15 32 _ h refl (omega arith)
entry-general cs ss s rsi h ne = entry-at cs ss s 14 40 _ h refl (omega arith)
entry-general cs ss s rdi h ne = entry-at cs ss s 13 48 _ h refl (omega arith)
entry-general cs ss s r8 h ne = entry-at cs ss s 12 56 _ h refl (omega arith)
entry-general cs ss s r9 h ne = entry-at cs ss s 11 64 _ h refl (omega arith)
entry-general cs ss s r10 h ne = entry-at cs ss s 10 72 _ h refl (omega arith)
entry-general cs ss s r11 h ne = entry-at cs ss s 9 80 _ h refl (omega arith)
entry-general cs ss s r12 h ne = entry-at cs ss s 8 88 _ h refl (omega arith)
entry-general cs ss s r13 h ne = entry-at cs ss s 7 96 _ h refl (omega arith)
entry-general cs ss s r14 h ne = entry-at cs ss s 6 104 _ h refl (omega arith)
entry-general cs ss s r15 h ne = entry-at cs ss s 5 112 _ h refl (omega arith)
entry-general cs ss s rsp h ne = absurd (ne refl)

-- The state in which the inner function is called: the frame stands at the stack pointer, which is its
-- argument.
pub record Entered (s u : Cpu) : Type 0 where
  pub frame : IsFrame s (frame_of s) u.memory
  pub stack : u.registers rsp ≡ frame_of s
  pub argument : u.registers rdi ≡ frame_of s
  pub above : (b : ℕ) → s.registers rsp ≤ b → u.memory b ≡ s.memory b

entry-argument :
    (cs ss : ℕ) (s : Cpu) → (entry cs ss s).registers rdi ≡ (entry cs ss s).registers rsp
unfolding entry exec step entry_pushes
entry-argument cs ss s = refl

-- The processor and the entry build the frame of the interrupted state.
pub entry-Entered :
    (cs ss : ℕ) (s : Cpu) → HasFrame s → Entered s (exec entry_pushes (deliver cs ss s))
unfolding entry frame_words aligned
entry-Entered cs ss s h =
    let top : ℕ = s.registers rsp - s.registers rsp % 16 in
    let stack : (entry cs ss s).registers rsp ≡ frame_of s =
      entry-rsp cs ss s
      ∙ push_words-rsp (frame_words cs ss s) (aligned s) (omega (arith, h.room))
          (omega (arith, h.in_word)) in
    record {
      frame = record {
        general = λ r ne. entry-general cs ss s r h ne;
        stack = entry-at cs ss s 1 144 _ h refl (omega arith);
        address = entry-at cs ss s 4 120 _ h refl (omega arith);
        flags = entry-at cs ss s 2 136 _ h refl (omega arith);
      };
      stack = stack;
      argument = entry-argument cs ss s ∙ stack;
      above = λ b le.
          ap (λ m. m b) (entry-memory cs ss s)
          ∙ push_words-above (frame_words cs ss s) (aligned s) b (omega (arith, h.room))
              (omega (arith, h.in_word)) (omega (arith, le));
    }
