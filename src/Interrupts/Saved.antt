-- ===== src/Interrupts/Saved.antt =====
-- interrupts.rs: what `irq_preempt` saves of an interrupted state.
use molt_os.Prelude.{true, ℕ, ◌+◌, ◌-◌, ◌<◌, ◌≡◌, ◌≢◌, refl, sym, ◌∙◌, arith, ok, leb}
use molt_os.Cpu.{Register, rsp, Cpu, store}
use molt_os.Cpu.Words.{store_self, store_ne}
use molt_os.Cpu.Context.{offset}
use molt_os.Cpu.Resume.{Outside}
use molt_os.Interrupts.{copy_fields, saved_fields, save_frame, frame_offset, frame_rip}
use molt_os.Interrupts.Frame.{frame_of, IsFrame}
use molt_os.Interrupts.Copied.{
  CanPreempt, fill, copy_fields-fill, copy_fields-others, saved_fields-Within, fill-general,
  fill-flags, offset-positive, offset-within,
}

-- The context at `ctx` resumes the interrupted state: its stack pointer shows a word below the
-- interrupted stack that holds the interrupted address.
pub record IsPreempted (s : Cpu) (ctx : ℕ) (m : ℕ → ℕ) : Type 0 where
  pub general : (r : Register) → r ≢ rsp → m (ctx + offset r) ≡ s.registers r
  pub stack : m (ctx + 0) ≡ s.registers rsp - 8
  pub flags : m (ctx + 136) ≡ s.rflags
  pub address : m (s.registers rsp - 8) ≡ s.rip

copied : ℕ → ℕ → (ℕ → ℕ) → ℕ → ℕ
copied ctx frame m = copy_fields ctx frame saved_fields m

-- The memory that `save_frame` returns, in which the interrupted stack pointer is known.
pub preempted_memory : Cpu → ℕ → (ℕ → ℕ) → ℕ → ℕ
preempted_memory s ctx m =
    let saved : ℕ → ℕ = copied ctx (frame_of s) m in
    store (store saved (s.registers rsp - 8) (saved (frame_of s + frame_rip))) (ctx + 0)
      (s.registers rsp - 8)

frame-apart : (s : Cpu) (ctx o : ℕ) → CanPreempt s ctx → o < 160 → Outside ctx (frame_of s + o)
frame-apart s ctx o h lt =
    h.apart (frame_of s + o) (omega arith) (omega (arith, lt, h.has_frame.room))

-- A word of the frame is still there after the copies.
copied-frame :
    (s : Cpu) (ctx o : ℕ) (m : ℕ → ℕ)
    → CanPreempt s ctx
    → o < 160
    → copied ctx (frame_of s) m (frame_of s + o) ≡ m (frame_of s + o)
unfolding copied
copied-frame s ctx o m h lt =
    copy_fields-others ctx (frame_of s) saved_fields m (frame_of s + o) saved_fields-Within
      (frame-apart s ctx o h lt)

-- Of an interrupted state whose frame is in memory, `irq_preempt` saves all of it.
pub save_frame-ok :
    (s : Cpu) (ctx : ℕ) (m : ℕ → ℕ)
    → CanPreempt s ctx
    → IsFrame s (frame_of s) m
    → save_frame ctx (frame_of s) m ≡ ok (preempted_memory s ctx m)
unfolding save_frame preempted_memory copied
save_frame-ok s ctx m h f =
    let stack : copy_fields ctx (frame_of s) saved_fields m (frame_of s + frame_offset rsp)
        ≡ s.registers rsp =
      copied-frame s ctx 144 m h (omega arith) ∙ f.stack in
    let room : leb 8 (s.registers rsp) ≡ true = ground (arith, h.has_frame.room) in
    simp (stack, room)

copied-context :
    (s : Cpu) (ctx o : ℕ) (m : ℕ → ℕ)
    → CanPreempt s ctx
    → 0 < o
    → o < 144
    → preempted_memory s ctx m (ctx + o) ≡ fill ctx (frame_of s) saved_fields m m (ctx + o)
unfolding preempted_memory copied
copied-context s ctx o m h pos lt =
    let saved : ℕ → ℕ = copied ctx (frame_of s) m in
    let slot : ℕ = s.registers rsp - 8 in
    store_ne (store saved slot (saved (frame_of s + frame_rip))) (ctx + 0) slot (ctx + o)
      (omega (arith, pos))
    ∙ store_ne saved slot (saved (frame_of s + frame_rip)) (ctx + o)
        (h.apart slot (omega arith) (omega (arith, h.has_frame.room)) o lt)
    ∙ copy_fields-fill ctx (frame_of s) saved_fields m m (ctx + o) saved_fields-Within
        (λ k kt. frame-apart s ctx k h kt) (λ k kt. refl)

pub save_frame-IsPreempted :
    (s : Cpu) (ctx : ℕ) (m : ℕ → ℕ)
    → CanPreempt s ctx
    → IsFrame s (frame_of s) m
    → IsPreempted s ctx (preempted_memory s ctx m)
unfolding preempted_memory copied
save_frame-IsPreempted s ctx m h f =
    let saved : ℕ → ℕ = copied ctx (frame_of s) m in
    let slot : ℕ = s.registers rsp - 8 in
    let slot_apart : slot ≢ ctx + 0 =
      λ e. h.apart slot (omega arith) (omega (arith, h.has_frame.room)) 0 (omega arith) (sym e) in
    record {
      general = λ r ne.
          copied-context s ctx (offset r) m h (offset-positive r ne) (offset-within r)
          ∙ fill-general ctx (frame_of s) m m r ne
          ∙ f.general r ne;
      stack = store_self (store saved slot (saved (frame_of s + frame_rip))) (ctx + 0) slot;
      flags =
          copied-context s ctx 136 m h (omega arith) (omega arith)
          ∙ fill-flags ctx (frame_of s) m m
          ∙ f.flags;
      address =
          store_ne (store saved slot (saved (frame_of s + frame_rip))) (ctx + 0) slot slot
            slot_apart
          ∙ store_self saved slot (saved (frame_of s + frame_rip))
          ∙ copied-frame s ctx 120 m h (omega arith)
          ∙ f.address;
    }

-- Nothing else in memory changes.
pub preempted_memory-others :
    (s : Cpu) (ctx b : ℕ) (m : ℕ → ℕ)
    → Outside ctx b
    → b ≢ s.registers rsp - 8
    → preempted_memory s ctx m b ≡ m b
unfolding preempted_memory copied
preempted_memory-others s ctx b m out ne =
    let saved : ℕ → ℕ = copied ctx (frame_of s) m in
    let slot : ℕ = s.registers rsp - 8 in
    store_ne (store saved slot (saved (frame_of s + frame_rip))) (ctx + 0) slot b
      (λ e. out 0 (omega arith) (sym e))
    ∙ store_ne saved slot (saved (frame_of s + frame_rip)) b ne
    ∙ copy_fields-others ctx (frame_of s) saved_fields m b saved_fields-Within out
