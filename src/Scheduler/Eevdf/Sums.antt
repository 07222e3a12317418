-- ===== src/Scheduler/Eevdf/Sums.antt =====
-- eevdf.rs: the sums and products of a tick stay in their words, where there is room.
use native.Mathlib.Nat.{div-le_self, mul-le-mul_left}
use molt_os.Prelude.{
  ℕ, zero, suc, ◌+◌, ◌-◌, ◌*◌, ◌/◌, ◌^◌, ◌≤◌, ◌<◌, ◌≡◌, inl, inr, refl, true, Option, none, some,
  List, [], ◌∷◌, ltb, ◌==◌, length, get_elem?, set, ok, ap, All, arith, lt→ltb, Bool-cases, word,
  InRange, get_elem?_in_range, All-get_elem?, All-set,
}
use molt_os.Scheduler.Eevdf.{
  ThreadMeta, runnable, sum_from, sum_weights, virtual_deadline, charge_by, charge,
}
use molt_os.Scheduler.Eevdf.Charge.{Grows}

-- The sum of all weights, those of blocked threads included.
abbrev pub total : List ThreadMeta → ℕ
total [] = 0
total (m ∷ ms) = m.weight + total ms

pub total-runnable : (ms : List ThreadMeta) → total (runnable ms) ≤ total ms
unfolding runnable
total-runnable [] = omega arith
total-runnable (m ∷ ms) = ground (arith, total-runnable ms)

pub total-Grows : (ms ns : List ThreadMeta) → Grows ms ns → total ns ≡ total ms
total-Grows [] [] g = refl
total-Grows [] (n ∷ ns) g = absurd g
total-Grows (m ∷ ms) [] g = absurd g
total-Grows (m ∷ ms) (n ∷ ns) g = omega (arith, total-Grows ms ns g.3)

pub weight-le-total :
    (ms : List ThreadMeta) (i : ℕ) (m : ThreadMeta) → get_elem? ms i ≡ some m → m.weight ≤ total ms
weight-le-total [] i m e = cc
weight-le-total (n ∷ ms) zero m e = let same : n ≡ m = cc in rw (← same) (omega arith)
weight-le-total (n ∷ ms) (suc i) m e = omega (arith, weight-le-total ms i m e)

pub sum_from-total :
    (acc : ℕ) (ms : List ThreadMeta) → acc + total ms < word → sum_from acc ms ≡ ok (acc + total ms)
unfolding sum_from
sum_from-total acc [] h = ap ok (omega arith)
sum_from-total acc (m ∷ ms) h =
    rw
      (lt→ltb (acc + m.weight) word (omega arith), sum_from-total (acc + m.weight) ms (omega arith))
      (ap ok (omega arith))

pub sum_weights-total :
    (ms : List ThreadMeta)
    → total ms < word
    → (sum : ℕ) × (sum_weights ms ≡ ok sum) × (sum ≤ total ms)
unfolding sum_weights
sum_weights-total ms h =
    let le = total-runnable ms in
    (0 + total (runnable ms), sum_from-total 0 (runnable ms) (omega arith), omega arith)

-- Half of the room of a word for the vruntimes, and a quarter for what a tick can add.
abbrev pub VruntimeBelow : ℕ → ThreadMeta → Type 0
VruntimeBelow n m = m.vruntime < n

pub VruntimeBelow-mono :
    (a b : ℕ) (ms : List ThreadMeta) → a ≤ b → All (VruntimeBelow a) ms → All (VruntimeBelow b) ms
VruntimeBelow-mono a b [] h k = tt
VruntimeBelow-mono a b (m ∷ ms) h k = (omega arith, VruntimeBelow-mono a b ms h k.1)

pub charge_by-total :
    (p : ℕ) (ms : List ThreadMeta) (ts sum : ℕ) (m : ThreadMeta)
    → get_elem? ms p ≡ some m
    → ltb 0 sum ≡ true
    → ts * total ms * 1024 < 2 ^ 62
    → All (VruntimeBelow (2 ^ 62)) ms
    → (ns : List ThreadMeta) × (charge_by p ms ts sum ≡ ok ns) × All (VruntimeBelow (2 ^ 63)) ns
unfolding charge_by
charge_by-total p ms ts sum m found t h low =
    let k = All-get_elem? (VruntimeBelow (2 ^ 62)) ms p m low found in
    let low' = VruntimeBelow-mono (2 ^ 62) (2 ^ 63) ms (omega arith) low in
    let b : ℕ = ts * m.weight * 1024 in
    let small : ts * m.weight ≤ ts * total ms = mul-le-mul_left ts (weight-le-total ms p m found) in
    let share = div-le_self b sum in
    (
      set ms p (record m { vruntime = m.vruntime + b / sum }),
      rw (
        found,
        lt→ltb (ts * m.weight) word (omega arith),
        lt→ltb b word (omega arith),
        t,
        lt→ltb (m.vruntime + b / sum) word (omega arith),
      ),
      All-set (VruntimeBelow (2 ^ 63)) ms p _ (omega arith) low',
    )

pub charge-total :
    (current : Option ℕ) (ms : List ThreadMeta) (ts : ℕ)
    → InRange current (length ms)
    → total ms < word
    → ts * total ms * 1024 < 2 ^ 62
    → All (VruntimeBelow (2 ^ 62)) ms
    → (ns : List ThreadMeta) × (charge current ms ts ≡ ok ns) × All (VruntimeBelow (2 ^ 63)) ns
unfolding charge
charge-total none ms ts r w h low =
    (ms, refl, VruntimeBelow-mono (2 ^ 62) (2 ^ 63) ms (omega arith) low)
charge-total (some p) ms ts r w h low =
    let (sum, es, _) = sum_weights-total ms w in
    let (m, found) = get_elem?_in_range ms p r in
    elim (Bool-cases (ltb 0 sum)) [
      | inl t ↦
          let (ns, e, low') = charge_by-total p ms ts sum m found t h low in
          (ns, rw (es, t) e, low')
      | inr t ↦ (ms, rw (es, t), VruntimeBelow-mono (2 ^ 62) (2 ^ 63) ms (omega arith) low)
    ]

pub virtual_deadline-total :
    (m : ThreadMeta) (ts sum : ℕ)
    → VruntimeBelow (2 ^ 63) m
    → ts * sum * 1024 < 2 ^ 62
    → (d : ℕ) × (virtual_deadline m ts sum ≡ ok d)
unfolding virtual_deadline
virtual_deadline-total m ts sum low h = elim (Bool-cases (m.weight == 0)) [
  | inl t ↦ (2 ^ 64 - 1, rw t)
  | inr t ↦
      let b : ℕ = ts * sum * 1024 in
      let share = div-le_self b m.weight in
      (
        m.vruntime + b / m.weight,
        rw (
          t,
          lt→ltb (ts * sum) word (omega arith),
          lt→ltb b word (omega arith),
          lt→ltb 0 m.weight (ground arith),
          lt→ltb (m.vruntime + b / m.weight) word (omega arith),
        ),
      )
]
