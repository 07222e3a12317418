-- ===== src/Scheduler/Eevdf/Candidates.antt =====
-- The choice of `tick_prepare` in eevdf.rs: the eligible threads, the earliest of them, and the
-- fallback.
use mathlib.Core.Path.{subst₂}
use molt_os.Prelude.{
  ℕ, zero, suc, ◌+◌, ◌≤◌, ◌<◌, ◌≡◌, inl, inr, refl, min, Bool, true, false, none, some, List, [],
  ◌∷◌, if◌then◌else◌, get_elem?, subst, All, arith, Bool-cases,
}
use molt_os.Scheduler.Eevdf.{ThreadMeta, runnable, min_from, eligible, candidates, first_runnable}
use molt_os.Scheduler.Eevdf.Deadline.{Rising}

All-if {ℓ κ} :
    {A : Type ℓ} (P : A → Type κ) (b : Bool) (x : A) (xs : List A)
    → All P (if b then x ∷ xs else xs)
    → All P xs
All-if P true x xs h = h.1
All-if P false x xs h = h

Rising-if :
    (b : Bool) (i : ℕ) (c : ℕ × ThreadMeta) (cs : List (ℕ × ThreadMeta))
    → i < c.0
    → Rising c.0 cs
    → Rising i (if b then c ∷ cs else cs)
Rising-if true i c cs h r = (h, r)
Rising-if false i c [] h r = tt
Rising-if false i c (d ∷ cs) h r = (omega arith, r.1)

module _ (limit : ℕ) where
  -- What holds of every eligible entry holds of the candidates.
  pub candidates-All :
      (P : ℕ × ThreadMeta → Type 0) (i : ℕ) (ms : List ThreadMeta)
      → ((k j : ℕ) (m : ThreadMeta)
          → k ≡ i + j
          → get_elem? ms j ≡ some m
          → eligible limit m ≡ true
          → P (k, m))
      → All P (candidates limit i ms)
  unfolding candidates
  candidates-All P i [] h = tt
  candidates-All P i (m ∷ ms) h =
      let rest = candidates-All P (suc i) ms (λ k j n e g t. h k (suc j) n (omega arith) g t) in
      elim (Bool-cases (eligible limit m)) [
        | inl e ↦ rw e (h i 0 m (omega arith) refl e, rest)
        | inr e ↦ rw e rest
      ]

  -- Every eligible entry is a candidate.
  pub candidates-get_elem? :
      (P : ℕ × ThreadMeta → Type 0) (i : ℕ) (ms : List ThreadMeta)
      → All P (candidates limit i ms)
      → (k j : ℕ) (m : ThreadMeta) → k ≡ i + j
      → get_elem? ms j ≡ some m
      → eligible limit m ≡ true
      → P (k, m)
  unfolding candidates
  candidates-get_elem? P i [] a k j m e g t = cc
  candidates-get_elem? P i (n ∷ ms) a k zero m e g t =
      let same : n ≡ m = cc in
      let passes : eligible limit n ≡ true = rw same t in
      let a' : All P ((i, n) ∷ candidates limit (suc i) ms) = rw passes at a in
      let at_k : (i, n) ≡ (k, m) = ground arith in subst P at_k a'.0
  candidates-get_elem? P i (n ∷ ms) a k (suc j) m e g t =
      candidates-get_elem? P (suc i) ms
        (All-if P (eligible limit n) (i, n) (candidates limit (suc i) ms) a) k j m (omega arith) g t

  candidates-Rising : (i : ℕ) (ms : List ThreadMeta) → Rising i (candidates limit (suc i) ms)
  unfolding candidates
  candidates-Rising i [] = tt
  candidates-Rising i (m ∷ ms) =
      Rising-if (eligible limit m) i (suc i, m) (candidates limit (suc (suc i)) ms) (omega arith)
        (candidates-Rising (suc i) ms)

  pub candidates-cons-Rising :
      (i : ℕ) (ms : List ThreadMeta) (c : ℕ × ThreadMeta) (cs : List (ℕ × ThreadMeta))
      → candidates limit i ms ≡ c ∷ cs
      → Rising c.0 cs
  unfolding candidates
  candidates-cons-Rising i [] c cs e = cc
  candidates-cons-Rising i (m ∷ ms) c cs e = elim (Bool-cases (eligible limit m)) [
    | inl t ↦
        let e' : (i, m) ∷ candidates limit (suc i) ms ≡ c ∷ cs = rw t at e in
        let here : i ≡ c.0 = cc in
        let rest : candidates limit (suc i) ms ≡ cs = cc in
        subst₂ Rising here rest (candidates-Rising i ms)
    | inr t ↦
        let e' : candidates limit (suc i) ms ≡ c ∷ cs = rw t at e in
        candidates-cons-Rising (suc i) ms c cs e'
  ]

  -- With no candidate every runnable thread lies above the limit.
  pub candidates-nil :
      (i : ℕ) (ms : List ThreadMeta)
      → candidates limit i ms ≡ []
      → All (λ m. limit < m.vruntime) (runnable ms)
  unfolding candidates runnable
  candidates-nil i [] h = tt
  candidates-nil i (m ∷ ms) h = ground (arith, candidates-nil (suc i) ms)

pub le-min_from :
    (k best : ℕ) (ms : List ThreadMeta)
    → k ≤ best
    → All (λ m. k ≤ m.vruntime) ms
    → k ≤ min_from best ms
unfolding min_from
le-min_from k best [] h a = h
le-min_from k best (m ∷ ms) h a = le-min_from k (min best m.vruntime) ms (omega arith) a.1

pub first_runnable-nil :
    (i : ℕ) (ms : List ThreadMeta) → runnable ms ≡ [] → first_runnable i ms ≡ none
unfolding first_runnable runnable
first_runnable-nil i [] h = refl
first_runnable-nil i (m ∷ ms) h = ground (arith, first_runnable-nil (suc i) ms)
