-- ===== src/Scheduler/Initial.antt =====
-- src/thread/thread.rs and stack.rs: what a new thread has in memory.
use molt_os.Prelude.{
  ℕ, ◌+◌, ◌-◌, ◌%◌, ◌≤◌, ◌<◌, ◌≡◌, ◌≢◌, refl, sym, ◌∙◌, ◌==◌, true, false, ltb, leb, List, [], ◌∷◌,
  All, ok, word, arith,
}
use molt_os.Cpu.{Register, rsp, Cpu, store}
use molt_os.Cpu.Words.{add-==-add, differ, store_self, store_ne}
use molt_os.Cpu.Context.{offset}
use molt_os.Cpu.Resume.{Outside}
use molt_os.Cpu.Halves.{
  IsCalleeSaved, saves_rbx, saves_rbp, saves_r12, saves_r13, saves_r14, saves_r15,
}
use molt_os.Cpu.Stack.{
  KernelStack, canary, with_size, write_canary, zeroed, clear_bit4, top, write_fields,
  default_fields,
}

-- The stack has room, and the context is not in it.
pub record IsPlaced (start ctx bytes : ℕ) : Type 0 where
  pub room : 48 ≤ bytes
  pub in_word : start + bytes < word
  pub apart : (b : ℕ) → start ≤ b → b < start + bytes → Outside ctx b

abbrev pub WithinContext : ℕ × ℕ → Type 0
WithinContext f = f.0 < 144

pub write_fields-others :
    (ctx : ℕ) (fs : List (ℕ × ℕ)) (m : ℕ → ℕ) (b : ℕ)
    → All WithinContext fs
    → Outside ctx b
    → write_fields ctx fs m b ≡ m b
unfolding write_fields
write_fields-others ctx [] m b within out = refl
write_fields-others ctx (f ∷ fs) m b within out =
    write_fields-others ctx fs (store m (ctx + f.0) f.1) b within.1 out
    ∙ store_ne m (ctx + f.0) f.1 b (λ e. out f.0 within.0 (sym e))

-- The top of a stack of at least 48 bytes lies in it, two words or more from both ends and four at most from the upper, and is as far
-- from a multiple of 16 as the end of the allocation is.
pub top-in_storage :
    (s : KernelStack)
    → 48 ≤ s.size
    → s.start + s.size < word
    → (t : ℕ) × (top s ≡ ok t)
      × (s.start + 16 ≤ t)
      × (t + 16 ≤ s.start + s.size)
      × (t % 16 ≡ (s.start + s.size) % 16)
      × (s.start + s.size ≤ t + 32)
unfolding top
top-in_storage s room in_word =
    let end : ℕ = s.start + s.size in
    let fits : ltb end word ≡ true = ground (arith, in_word) in
    let large : leb 16 (clear_bit4 end) ≡ true = ground (arith, room) in
    (
      clear_bit4 end - 16,
      rw (fits, large),
      omega (arith, room),
      omega (arith, room),
      omega (arith, room),
      omega (arith, room),
    )

-- A new thread: the first switch to its context calls the entry point on an empty stack.
pub record Starts (entry_point t : ℕ) (u : Cpu) : Type 0 where
  pub address : u.rip ≡ entry_point
  pub stack : u.registers rsp ≡ t + 8
  pub preserved : (r : Register) → IsCalleeSaved r → u.registers r ≡ 0
  pub flags : u.rflags ≡ 0x202

-- What is written to the context of a new thread.
unfoldable pub initial_fields : ℕ → ℕ → List (ℕ × ℕ)
initial_fields entry_point t =
    (0, t) ∷ (8, entry_point) ∷ (16, 0) ∷ (24, 0) ∷ (32, 0) ∷ (40, 0) ∷ (48, 0) ∷ (56, 0) ∷ []

pub initial_fields-WithinContext :
    (entry_point t : ℕ) → All WithinContext (initial_fields entry_point t)
unfolding initial_fields
initial_fields-WithinContext entry_point t = (
  omega arith,
  (
    omega arith,
    (omega arith, (omega arith, (omega arith, (omega arith, (omega arith, (omega arith, tt)))))),
  ),
)

pub default_fields-WithinContext : All WithinContext default_fields
default_fields-WithinContext = (
  omega arith,
  (
    omega arith,
    (
      omega arith,
      (
        omega arith,
        (
          omega arith,
          (
            omega arith,
            (
              omega arith,
              (
                omega arith,
                (
                  omega arith,
                  (
                    omega arith,
                    (
                      omega arith,
                      (
                        omega arith,
                        (
                          omega arith,
                          (
                            omega arith,
                            (omega arith, (omega arith, (omega arith, (omega arith, tt)))),
                          ),
                        ),
                      ),
                    ),
                  ),
                ),
              ),
            ),
          ),
        ),
      ),
    ),
  ),
)

-- The memory in which a new thread is ready.
unfoldable pub created : ℕ → ℕ → ℕ → ℕ → ℕ → (ℕ → ℕ) → ℕ → ℕ
created start ctx entry_point bytes t m =
    let fresh : ℕ → ℕ = (with_size start bytes m).1 in
    write_fields ctx (initial_fields entry_point t)
      (store (write_fields ctx default_fields fresh) t entry_point)

pub created-preserved :
    (start ctx entry_point bytes t : ℕ) (m : ℕ → ℕ) (r : Register)
    → IsCalleeSaved r
    → created start ctx entry_point bytes t m (ctx + offset r) ≡ 0
unfolding created initial_fields write_fields
created-preserved start ctx entry_point bytes t m _ saves_rbx = simp add-==-add
created-preserved start ctx entry_point bytes t m _ saves_rbp = simp add-==-add
created-preserved start ctx entry_point bytes t m _ saves_r12 = simp add-==-add
created-preserved start ctx entry_point bytes t m _ saves_r13 = simp add-==-add
created-preserved start ctx entry_point bytes t m _ saves_r14 = simp add-==-add
created-preserved start ctx entry_point bytes t m _ saves_r15 = simp add-==-add

pub created-stack :
    (start ctx entry_point bytes t : ℕ) (m : ℕ → ℕ)
    → created start ctx entry_point bytes t m (ctx + 0) ≡ t
unfolding created initial_fields write_fields
created-stack start ctx entry_point bytes t m = simp add-==-add

pub created-flags :
    (start ctx entry_point bytes t : ℕ) (m : ℕ → ℕ)
    → Outside ctx t
    → created start ctx entry_point bytes t m (ctx + 136) ≡ 0x202
unfolding created initial_fields write_fields
created-flags start ctx entry_point bytes t m out =
    let ne : (ctx + 136 == t) ≡ false = differ (ctx + 136) t (out 136 (omega arith)) in
    simp (add-==-add, ne)

pub created-address :
    (start ctx entry_point bytes t : ℕ) (m : ℕ → ℕ)
    → Outside ctx t
    → created start ctx entry_point bytes t m t ≡ entry_point
unfolding created
created-address start ctx entry_point bytes t m out =
    write_fields-others ctx (initial_fields entry_point t) _ t
      (initial_fields-WithinContext entry_point t) out
    ∙ store_self (write_fields ctx default_fields (with_size start bytes m).1) t entry_point

pub created-canary :
    (start ctx entry_point bytes t : ℕ) (m : ℕ → ℕ)
    → IsPlaced start ctx bytes
    → start ≢ t
    → created start ctx entry_point bytes t m start ≡ canary
unfolding created with_size write_canary
created-canary start ctx entry_point bytes t m p ne =
    let out : Outside ctx start = p.apart start (omega arith) (omega (arith, p.room)) in
    let eight : leb 8 bytes ≡ true = ground (arith, p.room) in
    write_fields-others ctx (initial_fields entry_point t) _ start
      (initial_fields-WithinContext entry_point t) out
    ∙ store_ne (write_fields ctx default_fields (with_size start bytes m).1) t entry_point start ne
    ∙ write_fields-others ctx default_fields (with_size start bytes m).1 start
        default_fields-WithinContext out
    ∙ rw eight (store_self (zeroed start bytes m) start canary)
