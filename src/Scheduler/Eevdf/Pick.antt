-- ===== src/Scheduler/Eevdf/Pick.antt =====
-- What `next_idx` of `tick_prepare` in eevdf.rs is: the eligible thread of earliest deadline, and
-- never the fallback's.
use molt_os.Prelude.{
  ℕ, suc, ◌≤◌, ◌<◌, ◌≡◌, inl, inr, refl, true, none, some, List, [], ◌∷◌, get_elem?, ok, subst, sym,
  All, arith, >>=-eq-ok,
}
use molt_os.Scheduler.Eevdf.{
  ThreadMeta, runnable, min_vruntime_or, eligible, candidates, min_by_deadline, pick_from, pick,
}
use molt_os.Scheduler.Eevdf.Deadline.{deadline, Beats, Among, min_by_deadline-eq-ok}
use molt_os.Scheduler.Eevdf.Candidates.{
  candidates-All, candidates-get_elem?, candidates-cons-Rising, candidates-nil, le-min_from,
  first_runnable-nil,
}

-- Entry `k` is eligible, no eligible entry has an earlier deadline, and those before it have later
-- ones.
pub record IsEarliest (time_slice sum limit : ℕ) (ms : List ThreadMeta) (k : ℕ) : Type 0 where
  pub meta : ThreadMeta
  pub found : get_elem? ms k ≡ some meta
  pub passes : eligible limit meta ≡ true
  pub least :
      (j : ℕ) (n : ThreadMeta)
      → get_elem? ms j ≡ some n
      → eligible limit n ≡ true
      → (deadline time_slice sum meta ≤ deadline time_slice sum n)
        × (j < k → deadline time_slice sum meta < deadline time_slice sum n)

-- The least vruntime of the runnable threads is within the limit, so one of them is a candidate.
pub no_candidate :
    (limit d : ℕ) (ms : List ThreadMeta)
    → min_vruntime_or d (runnable ms) ≤ limit
    → candidates limit 0 ms ≡ []
    → runnable ms ≡ []
unfolding min_vruntime_or
no_candidate limit d ms h e = go (runnable ms) h (candidates-nil limit 0 ms e)
  where
    go :
        (rs : List ThreadMeta)
        → min_vruntime_or d rs ≤ limit
        → All (λ m. limit < m.vruntime) rs
        → rs ≡ []
    go [] h a = refl
    go (m ∷ rs) h a = absurd (omega (arith, le-min_from (suc limit) m.vruntime rs a.0 a.1))

module _ (time_slice sum limit : ℕ) where
  Among-All :
      (P : ℕ × ThreadMeta → Type 0) (r c : ℕ × ThreadMeta) (cs : List (ℕ × ThreadMeta))
      → Among r c cs
      → P c
      → All P cs
      → P r
  Among-All P r c [] h p a = rw h p
  Among-All P r c (d ∷ ds) (inl e) p a = rw e p
  Among-All P r c (d ∷ ds) (inr h) p a = Among-All P r d ds h a.0 a.1

  -- What a candidate is.
  IsListed : List ThreadMeta → ℕ × ThreadMeta → Type 0
  IsListed ms c = (get_elem? ms c.0 ≡ some c.1) × (eligible limit c.1 ≡ true)

  pick_from-cons :
      (ms : List ThreadMeta) (c : ℕ × ThreadMeta) (cs : List (ℕ × ThreadMeta)) (k : ℕ)
      → candidates limit 0 ms ≡ c ∷ cs
      → pick_from time_slice sum ms (c ∷ cs) ≡ ok (some k)
      → IsEarliest time_slice sum limit ms k
  unfolding pick_from IsListed
  pick_from-cons ms c cs k q e =
      let (r, er, ek) = >>=-eq-ok (min_by_deadline time_slice sum c cs) _ e in
      let due = deadline time_slice sum in
      let (among, beats, all) =
        min_by_deadline-eq-ok time_slice sum c cs (candidates-cons-Rising limit 0 ms c cs q) er in
      let members : All (IsListed ms) (candidates limit 0 ms) =
        candidates-All limit (IsListed ms) 0 ms
          (λ k j m e g t. let same : k ≡ j = omega arith in (rw same g, t)) in
      let listed : All (IsListed ms) (c ∷ cs) = subst (All (IsListed ms)) q members in
      let mine = Among-All (IsListed ms) r c cs among listed.0 listed.1 in
      let beaten : All (Beats due r) (candidates limit 0 ms) =
        subst (All (Beats due r)) (sym q) (beats, all) in
      let here : r.0 ≡ k = cc in
      subst (IsEarliest time_slice sum limit ms) here (record {
        meta = r.1;
        found = mine.0;
        passes = mine.1;
        least =
            λ j n g t. candidates-get_elem? limit (Beats due r) 0 ms beaten j j n (omega arith) g t;
      })

  -- The thread picked is the eligible thread of earliest deadline.
  pub pick-eq-some :
      (d : ℕ) (ms : List ThreadMeta) (k : ℕ)
      → min_vruntime_or d (runnable ms) ≤ limit
      → pick time_slice sum limit ms ≡ ok (some k)
      → IsEarliest time_slice sum limit ms k
  unfolding pick pick_from
  pick-eq-some d ms k h e = go (candidates limit 0 ms) refl e
    where
      go :
          (cs : List (ℕ × ThreadMeta))
          → candidates limit 0 ms ≡ cs
          → pick_from time_slice sum ms cs ≡ ok (some k)
          → IsEarliest time_slice sum limit ms k
      go [] q e = cc (first_runnable-nil 0 ms (no_candidate limit d ms h q))
      go (c ∷ cs) q e = pick_from-cons ms c cs k q e

  -- No thread is picked only where every thread is blocked.
  pub pick-eq-none :
      (d : ℕ) (ms : List ThreadMeta)
      → min_vruntime_or d (runnable ms) ≤ limit
      → pick time_slice sum limit ms ≡ ok none
      → runnable ms ≡ []
  unfolding pick pick_from
  pick-eq-none d ms h e = go (candidates limit 0 ms) refl e
    where
      go :
          (cs : List (ℕ × ThreadMeta))
          → candidates limit 0 ms ≡ cs
          → pick_from time_slice sum ms cs ≡ ok none
          → runnable ms ≡ []
      go [] q e = no_candidate limit d ms h q
      go (c ∷ cs) q e = let (r, er, ek) = >>=-eq-ok (min_by_deadline time_slice sum c cs) _ e in cc
