-- ===== src/Interrupts/Copied.antt =====
-- interrupts.rs: the copy of the frame into the context in `irq_preempt`, of an interrupted state.
use molt_os.Prelude.{ℕ, ◌+◌, ◌≤◌, ◌<◌, ◌≡◌, ◌≢◌, refl, sym, ap, ◌∙◌, List, [], ◌∷◌, All, arith}
use molt_os.Cpu.{
  Register, rax, rcx, rdx, rbx, rsp, rbp, rsi, rdi, r8, r9, r10, r11, r12, r13, r14, r15, Cpu,
  store,
}
use molt_os.Cpu.Words.{add-==-add, store_ne}
use molt_os.Cpu.Context.{offset}
use molt_os.Cpu.Resume.{Outside}
use molt_os.Interrupts.{copy_fields, saved_fields, frame_offset, frame_rflags}
use molt_os.Interrupts.Frame.{HasFrame, frame_of}

-- The frame has room, and the context at `ctx` is not in the part of the stack that the frame takes.
pub record CanPreempt (s : Cpu) (ctx : ℕ) : Type 0 where
  pub has_frame : HasFrame s
  pub apart : (b : ℕ) → frame_of s ≤ b → b < s.registers rsp → Outside ctx b

-- The copy, with all words read from the memory `m0` at the beginning.
unfoldable pub fill : ℕ → ℕ → List (ℕ × ℕ) → (ℕ → ℕ) → (ℕ → ℕ) → ℕ → ℕ
fill ctx frame [] m0 m = m
fill ctx frame (f ∷ fs) m0 m = fill ctx frame fs m0 (store m (ctx + f.0) (m0 (frame + f.1)))

-- The offsets lie within the context and the frame.
abbrev pub Within : ℕ × ℕ → Type 0
Within f = (f.0 < 144) × (f.1 < 160)

pub copy_fields-fill :
    (ctx frame : ℕ) (fs : List (ℕ × ℕ)) (m0 m : ℕ → ℕ) (b : ℕ)
    → All Within fs
    → ((o : ℕ) → o < 160 → Outside ctx (frame + o))
    → ((o : ℕ) → o < 160 → m (frame + o) ≡ m0 (frame + o))
    → copy_fields ctx frame fs m b ≡ fill ctx frame fs m0 m b
unfolding copy_fields fill
copy_fields-fill ctx frame [] m0 m b within apart same = refl
copy_fields-fill ctx frame (f ∷ fs) m0 m b within apart same =
    ap (λ v. copy_fields ctx frame fs (store m (ctx + f.0) v) b) (same f.1 within.0.1)
    ∙ copy_fields-fill ctx frame fs m0 (store m (ctx + f.0) (m0 (frame + f.1))) b within.1 apart
        (λ o lt.
          store_ne m (ctx + f.0) (m0 (frame + f.1)) (frame + o)
            (λ e. apart o lt f.0 within.0.0 (sym e))
          ∙ same o lt)

pub copy_fields-others :
    (ctx frame : ℕ) (fs : List (ℕ × ℕ)) (m : ℕ → ℕ) (b : ℕ)
    → All Within fs
    → Outside ctx b
    → copy_fields ctx frame fs m b ≡ m b
unfolding copy_fields
copy_fields-others ctx frame [] m b within out = refl
copy_fields-others ctx frame (f ∷ fs) m b within out =
    copy_fields-others ctx frame fs (store m (ctx + f.0) (m (frame + f.1))) b within.1 out
    ∙ store_ne m (ctx + f.0) (m (frame + f.1)) b (λ e. out f.0 within.0.0 (sym e))

pub saved_fields-Within : All Within saved_fields
saved_fields-Within = (
  (omega arith, omega arith),
  (
    (omega arith, omega arith),
    (
      (omega arith, omega arith),
      (
        (omega arith, omega arith),
        (
          (omega arith, omega arith),
          (
            (omega arith, omega arith),
            (
              (omega arith, omega arith),
              (
                (omega arith, omega arith),
                (
                  (omega arith, omega arith),
                  (
                    (omega arith, omega arith),
                    (
                      (omega arith, omega arith),
                      (
                        (omega arith, omega arith),
                        (
                          (omega arith, omega arith),
                          (
                            (omega arith, omega arith),
                            (
                              (omega arith, omega arith),
                              ((omega arith, omega arith), ((omega arith, omega arith), tt)),
                            ),
                          ),
                        ),
                      ),
                    ),
                  ),
                ),
              ),
            ),
          ),
        ),
      ),
    ),
  ),
)

pub fill-general :
    (ctx frame : ℕ) (m0 m : ℕ → ℕ) (r : Register)
    → r ≢ rsp
    → fill ctx frame saved_fields m0 m (ctx + offset r) ≡ m0 (frame + frame_offset r)
unfolding fill
fill-general ctx frame m0 m rax ne = simp add-==-add
fill-general ctx frame m0 m rcx ne = simp add-==-add
fill-general ctx frame m0 m rdx ne = simp add-==-add
fill-general ctx frame m0 m rbx ne = simp add-==-add
fill-general ctx frame m0 m rbp ne = simp add-==-add
fill-general ctx frame m0 m rsi ne = simp add-==-add
fill-general ctx frame m0 m rdi ne = simp add-==-add
fill-general ctx frame m0 m r8 ne = simp add-==-add
fill-general ctx frame m0 m r9 ne = simp add-==-add
fill-general ctx frame m0 m r10 ne = simp add-==-add
fill-general ctx frame m0 m r11 ne = simp add-==-add
fill-general ctx frame m0 m r12 ne = simp add-==-add
fill-general ctx frame m0 m r13 ne = simp add-==-add
fill-general ctx frame m0 m r14 ne = simp add-==-add
fill-general ctx frame m0 m r15 ne = simp add-==-add
fill-general ctx frame m0 m rsp ne = absurd (ne refl)

pub fill-flags :
    (ctx frame : ℕ) (m0 m : ℕ → ℕ)
    → fill ctx frame saved_fields m0 m (ctx + 136) ≡ m0 (frame + frame_rflags)
unfolding fill
fill-flags ctx frame m0 m = simp add-==-add

pub offset-positive : (r : Register) → r ≢ rsp → 0 < offset r
offset-positive rax ne = omega arith
offset-positive rcx ne = omega arith
offset-positive rdx ne = omega arith
offset-positive rbx ne = omega arith
offset-positive rbp ne = omega arith
offset-positive rsi ne = omega arith
offset-positive rdi ne = omega arith
offset-positive r8 ne = omega arith
offset-positive r9 ne = omega arith
offset-positive r10 ne = omega arith
offset-positive r11 ne = omega arith
offset-positive r12 ne = omega arith
offset-positive r13 ne = omega arith
offset-positive r14 ne = omega arith
offset-positive r15 ne = omega arith
offset-positive rsp ne = absurd (ne refl)

pub offset-within : (r : Register) → offset r < 144
offset-within rax = omega arith
offset-within rcx = omega arith
offset-within rdx = omega arith
offset-within rbx = omega arith
offset-within rbp = omega arith
offset-within rsi = omega arith
offset-within rdi = omega arith
offset-within r8 = omega arith
offset-within r9 = omega arith
offset-within r10 = omega arith
offset-within r11 = omega arith
offset-within r12 = omega arith
offset-within r13 = omega arith
offset-within r14 = omega arith
offset-within r15 = omega arith
offset-within rsp = omega arith
