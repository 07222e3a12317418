-- ===== src/Scheduler/Eevdf/Deadline.antt =====
-- `ThreadMeta::virtual_deadline` and the `min_by` of eevdf.rs, without the overflow checks.
use native.Mathlib.Nat.{le-div_iff_mul-le, div-mul-le_self, mul-le-mul_left, le_trans}
use molt_os.Prelude.{
  ℕ, ◌+◌, ◌*◌, ◌/◌, ◌≤◌, ◌<◌, ◌≡◌, ◌⊎◌, inl, inr, refl, Bool, true, false, List, [], ◌∷◌, ltb, ◌==◌,
  if◌then◌else◌, ok, u64_max, All, arith, tests, >>=-eq-ok, Bool-cases,
}
use molt_os.Scheduler.Eevdf.{ThreadMeta, virtual_deadline, min_by_deadline}

-- What `virtual_deadline` returns when it does not overflow.
abbrev pub deadline : ℕ → ℕ → ThreadMeta → ℕ
deadline time_slice sum m =
    if m.weight == 0 then u64_max else m.vruntime + time_slice * sum * 1024 / m.weight

pub virtual_deadline-eq-ok :
    (m : ThreadMeta) (time_slice sum : ℕ) {d : ℕ}
    → virtual_deadline m time_slice sum ≡ ok d
    → d ≡ deadline time_slice sum m
unfolding virtual_deadline
virtual_deadline-eq-ok m time_slice sum h = ground arith

-- A bigger divisor gives a smaller quotient.
pub div-le-div_left : (n a b : ℕ) → 0 < a → a ≤ b → n / b ≤ n / a
div-le-div_left n a b ha h =
    (le-div_iff_mul-le ha).1 (le_trans (mul-le-mul_left (n / b) h) (div-mul-le_self n b))

-- At equal vruntime the thread of the greater weight is due no later.
pub deadline_antitone :
    (m n : ThreadMeta) (time_slice sum : ℕ)
    → m.vruntime ≡ n.vruntime
    → 0 < m.weight
    → m.weight ≤ n.weight
    → deadline time_slice sum n ≤ deadline time_slice sum m
deadline_antitone m n time_slice sum e h k =
    ground (arith, div-le-div_left (time_slice * sum * 1024) m.weight n.weight)

module _ (due : ThreadMeta → ℕ) where
  -- `r` is due no later than `c`, and earlier than a `c` that stands before it.
  abbrev pub Beats : ℕ × ThreadMeta → ℕ × ThreadMeta → Type 0
  Beats r c = (due r.1 ≤ due c.1) × (c.0 < r.0 → due r.1 < due c.1)

  -- One round of `min_by`: what beats the better of two beats both.
  Beats-better :
      (best c r : ℕ × ThreadMeta)
      → best.0 < c.0
      → Beats r (if ltb (due c.1) (due best.1) then c else best)
      → Beats r best × Beats r c
  Beats-better best c r h b = elim (Bool-cases (ltb (due c.1) (due best.1))) [
    | inl e ↦ let b' : Beats r c = rw e at b in (omega tests, b')
    | inr e ↦ let b' : Beats r best = rw e at b in (b', ground arith)
  ]

-- The indices rise along the list, all above `i`.
abbrev pub Rising : ℕ → List (ℕ × ThreadMeta) → Type 0
Rising i [] = Unit
Rising i (c ∷ cs) = (i < c.0) × Rising c.0 cs

-- `r` is `c` or one of the list.
abbrev pub Among : ℕ × ThreadMeta → ℕ × ThreadMeta → List (ℕ × ThreadMeta) → Type 0
Among r c [] = r ≡ c
Among r c (d ∷ ds) = (r ≡ c) ⊎ Among r d ds

Rising-better :
    (b : Bool) (best c : ℕ × ThreadMeta) (cs : List (ℕ × ThreadMeta))
    → Rising best.0 (c ∷ cs)
    → Rising (if b then c else best).0 cs
Rising-better true best c cs h = h.1
Rising-better false best c [] h = tt
Rising-better false best c (d ∷ cs) h = (omega arith, h.1.1)

Among-better :
    (b : Bool) (best c r : ℕ × ThreadMeta) (cs : List (ℕ × ThreadMeta))
    → Among r (if b then c else best) cs
    → Among r best (c ∷ cs)
Among-better true best c r cs h = inr h
Among-better false best c r [] h = inl h
Among-better false best c r (d ∷ cs) (inl e) = inl e
Among-better false best c r (d ∷ cs) (inr h) = inr (inr h)

min_by_deadline-cons :
    (time_slice sum : ℕ) (best c : ℕ × ThreadMeta) (cs : List (ℕ × ThreadMeta)) {r : ℕ × ThreadMeta}
    → min_by_deadline time_slice sum best (c ∷ cs) ≡ ok r
    → min_by_deadline time_slice sum
        (if ltb (deadline time_slice sum c.1) (deadline time_slice sum best.1) then c else best)
        cs
      ≡ ok r
unfolding min_by_deadline
min_by_deadline-cons ts sum best c cs e =
    let (a, ea, e1) = >>=-eq-ok (virtual_deadline best.1 ts sum) _ e in
    let (b, eb, e2) = >>=-eq-ok (virtual_deadline c.1 ts sum) _ e1 in
    rw (← virtual_deadline-eq-ok best.1 ts sum ea, ← virtual_deadline-eq-ok c.1 ts sum eb) e2

-- `min_by` returns the first of the candidates with the least deadline.
pub min_by_deadline-eq-ok :
    (time_slice sum : ℕ) (best : ℕ × ThreadMeta) (cs : List (ℕ × ThreadMeta)) {r : ℕ × ThreadMeta}
    → Rising best.0 cs
    → min_by_deadline time_slice sum best cs ≡ ok r
    → Among r best cs
      × Beats (deadline time_slice sum) r best
      × All (Beats (deadline time_slice sum) r) cs
unfolding min_by_deadline
min_by_deadline-eq-ok ts sum best [] {r} h e =
    let q : r ≡ best = cc in rw q (refl, (omega arith, λ h. absurd (omega arith)), tt)
min_by_deadline-eq-ok ts sum best (c ∷ cs) {r} h e =
    let first : Bool = ltb (deadline ts sum c.1) (deadline ts sum best.1) in
    let ih =
      min_by_deadline-eq-ok ts sum (if first then c else best) cs (Rising-better first best c cs h)
        (min_by_deadline-cons ts sum best c cs e) in
    let both = Beats-better (deadline ts sum) best c r h.0 ih.1 in
    (Among-better first best c r cs ih.0, both.0, (both.1, ih.2))
