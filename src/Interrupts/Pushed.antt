-- ===== src/Interrupts/Pushed.antt =====
-- Words that are pushed one after another, and where they are found.
use molt_os.Prelude.{
  ℕ, zero, suc, ◌+◌, ◌-◌, ◌*◌, ◌≤◌, ◌<◌, ◌≡◌, refl, sym, ap, ◌∙◌, some, List, [], ◌∷◌, length,
  get_elem?, arith, word,
}
use molt_os.Cpu.{Cpu, rsp, store, add8, sub8, push_word}
use molt_os.Cpu.Words.{store_self, store_ne}

unfoldable pub push_words : List ℕ → Cpu → Cpu
push_words [] s = s
push_words (v ∷ vs) s = push_words vs (push_word v s)

pub push_words-rsp :
    (vs : List ℕ) (s : Cpu)
    → length vs * 8 ≤ s.registers rsp
    → s.registers rsp < word
    → (push_words vs s).registers rsp ≡ s.registers rsp - length vs * 8
unfolding push_words
push_words-rsp [] s h k = omega arith
push_words-rsp (v ∷ vs) s h k =
    let e : sub8 (s.registers rsp) ≡ s.registers rsp - 8 = omega (arith, h, k) in
    let tail = push_words-rsp vs (push_word v s) (omega (arith, h, e)) (omega (arith, k, e)) in
    omega (arith, tail, e, h)

-- Nothing changes above the stack pointer.
pub push_words-above :
    (vs : List ℕ) (s : Cpu) (b : ℕ)
    → length vs * 8 ≤ s.registers rsp
    → s.registers rsp < word
    → s.registers rsp ≤ b
    → (push_words vs s).memory b ≡ s.memory b
unfolding push_words
push_words-above [] s b h k le = refl
push_words-above (v ∷ vs) s b h k le =
    let e : sub8 (s.registers rsp) ≡ s.registers rsp - 8 = omega (arith, h, k) in
    push_words-above vs (push_word v s) b (omega (arith, h, e)) (omega (arith, k, e))
      (omega (arith, e, le))
    ∙ store_ne s.memory (sub8 (s.registers rsp)) v b (omega (arith, e, le, h))

pub push_words-at :
    (vs : List ℕ) (s : Cpu) (i v : ℕ)
    → length vs * 8 ≤ s.registers rsp
    → s.registers rsp < word
    → get_elem? vs i ≡ some v
    → (push_words vs s).memory (s.registers rsp - suc i * 8) ≡ v
unfolding push_words
push_words-at [] s i v h k at = cc
push_words-at (x ∷ vs) s zero v h k at =
    let e : sub8 (s.registers rsp) ≡ s.registers rsp - 8 = omega (arith, h, k) in
    let same : x ≡ v = cc in
    push_words-above vs (push_word x s) (s.registers rsp - 8) (omega (arith, h, e))
      (omega (arith, k, e)) (omega (arith, e))
    ∙ ap (store s.memory (sub8 (s.registers rsp)) x) (sym e)
    ∙ store_self s.memory (sub8 (s.registers rsp)) x
    ∙ same
push_words-at (x ∷ vs) s (suc i) v h k at =
    let e : sub8 (s.registers rsp) ≡ s.registers rsp - 8 = omega (arith, h, k) in
    let same : s.registers rsp - suc (suc i) * 8 ≡ sub8 (s.registers rsp) - suc i * 8 =
      omega (arith, e) in
    ap (push_words vs (push_word x s)).memory same
    ∙ push_words-at vs (push_word x s) i v (omega (arith, h, e)) (omega (arith, k, e)) at

-- The address that `n` pops reach.
unfoldable pub climb : ℕ → ℕ → ℕ
climb zero a = a
climb (suc n) a = climb n (add8 a)

pub climb_lem : (n a : ℕ) → a + n * 8 < word → climb n a ≡ a + n * 8
unfolding climb
climb_lem zero a h = omega arith
climb_lem (suc n) a h =
    let e : add8 a ≡ a + 8 = omega (arith, h) in
    ap (climb n) e ∙ climb_lem n (a + 8) (omega (arith, h)) ∙ omega arith
