-- ===== src/Scheduler/Eevdf/Tick.antt =====
-- What `tick_prepare` of eevdf.rs does, on every path.
use mathlib.Core.Path.{subst₂}
use molt_os.Prelude.{
  ℕ, ◌-◌, ◌≤◌, ◌<◌, ◌≡◌, ◌≢◌, not, inl, inr, max, true, Option, none, some, [], ◌==◌, ==_iff,
  length, get_elem?, ok, ◌>>=◌, subst, ap, arith, ltb→lt, >>=-eq-ok, Bool-cases, &&-eq-true,
  length-zero, index, or_panic-eq-ok, saturating_add,
}
use molt_os.Scheduler.Thread.{Thread, context_ptr}
use molt_os.Scheduler.Eevdf.{
  EevdfScheduler, candidates, first_runnable, runnable, sum_weights, account, choose, switch_to,
  commit, skips, from_context, conclude, tick_threads, tick_prepare, time_slice_of, is_current,
  min_time_slice, min_vruntime_or,
}
use molt_os.Scheduler.Eevdf.Candidates.{first_runnable-nil}
use molt_os.Scheduler.Eevdf.Pick.{IsEarliest, no_candidate, pick-eq-some, pick-eq-none}
use molt_os.Scheduler.Eevdf.Invariant.{IsValid, Accounted, account-eq-ok, Accounted-IsValid}

-- The largest vruntime of an eligible thread.
abbrev pub limit_of : EevdfScheduler → ℕ → ℕ
limit_of a sum = saturating_add a.min_vruntime (max sum 1)

-- After the bookkeeping, thread `k` is the eligible one of earliest deadline.
pub record Chosen (a : EevdfScheduler) (time_slice k : ℕ) : Type 0 where
  pub sum : ℕ
  pub sum_of : sum_weights a.metadata ≡ ok sum
  pub earliest : IsEarliest time_slice sum (limit_of a sum) a.metadata k

-- The context that is saved: the bootstrap's on the first switch, then the current thread's.
abbrev pub SavedIn : EevdfScheduler → ℕ → Option ℕ → ℕ → Type 0
SavedIn s bootstrap_ctx none from_ctx = from_ctx ≡ bootstrap_ctx
SavedIn s bootstrap_ctx (some p) from_ctx =
    (t : Thread) × (get_elem? s.threads p ≡ some t) × (from_ctx ≡ context_ptr t)

pub data Outcome (s : EevdfScheduler) (bootstrap_ctx tick : ℕ) (s' : EevdfScheduler)
    : Option (ℕ × ℕ) → Type 0 where
  no_threads : s.threads ≡ [] → s' ≡ s → Outcome s bootstrap_ctx tick s' none
  all_blocked :
      Accounted s (time_slice_of s tick) s'
      → runnable s'.metadata ≡ []
      → Outcome s bootstrap_ctx tick s' none
  keep :
      (k : ℕ)
      → Accounted s (time_slice_of s tick) s'
      → Chosen s' (time_slice_of s tick) k
      → s.current ≡ some k
      → tick ≢ 0
      → tick - s.last_switch_tick < min_time_slice
      → Outcome s bootstrap_ctx tick s' none
  switch :
      (a : EevdfScheduler) (k from_ctx : ℕ) (t : Thread)
      → Accounted s (time_slice_of s tick) a
      → Chosen a (time_slice_of s tick) k
      → SavedIn s bootstrap_ctx s.current from_ctx
      → get_elem? s.threads k ≡ some t
      → s' ≡ record a { current = some k; last_switch_tick = tick }
      → Outcome s bootstrap_ctx tick s' (some (from_ctx, context_ptr t))

within_limit :
    (s : EevdfScheduler) (ts sum : ℕ) {a : EevdfScheduler}
    → IsValid a
    → Accounted s ts a
    → min_vruntime_or s.min_vruntime (runnable a.metadata) ≤ limit_of a sum
within_limit s ts sum v c = omega (arith, c.least, v.min_fits)

pub choose-some :
    (s : EevdfScheduler) (ts k : ℕ) {a : EevdfScheduler}
    → IsValid a
    → Accounted s ts a
    → choose a ts ≡ ok (some k)
    → Chosen a ts k
unfolding choose
choose-some s ts k {a} v c e =
    let (sum, es, e1) = >>=-eq-ok (sum_weights a.metadata) _ e in
    record {
      sum = sum;
      sum_of = es;
      earliest =
          pick-eq-some ts sum (limit_of a sum) s.min_vruntime a.metadata k
            (within_limit s ts sum v c) e1;
    }

-- The fallback of `next_idx` never finds a thread: where no thread is eligible, all are blocked.
pub fallback_unused :
    (s : EevdfScheduler) (time_slice sum : ℕ) {a : EevdfScheduler}
    → IsValid a
    → Accounted s time_slice a
    → candidates (limit_of a sum) 0 a.metadata ≡ []
    → first_runnable 0 a.metadata ≡ none
fallback_unused s ts sum {a} v c e =
    first_runnable-nil 0 a.metadata
      (no_candidate (limit_of a sum) s.min_vruntime a.metadata (within_limit s ts sum v c) e)

choose-none :
    (s : EevdfScheduler) (ts : ℕ) {a : EevdfScheduler}
    → IsValid a
    → Accounted s ts a
    → choose a ts ≡ ok none
    → runnable a.metadata ≡ []
unfolding choose
choose-none s ts {a} v c e =
    let (sum, es, e1) = >>=-eq-ok (sum_weights a.metadata) _ e in
    pick-eq-none ts sum (limit_of a sum) s.min_vruntime a.metadata (within_limit s ts sum v c) e1

-- The two ways in which `commit` ends.
data Committed (a : EevdfScheduler) (bootstrap_ctx tick k : ℕ) (s' : EevdfScheduler)
    : Option (ℕ × ℕ) → Type 0 where
  skipped :
      a.current ≡ some k
      → tick ≢ 0
      → tick - a.last_switch_tick < min_time_slice
      → s' ≡ a
      → Committed a bootstrap_ctx tick k s' none
  switched :
      (from_ctx : ℕ) (t : Thread)
      → SavedIn a bootstrap_ctx a.current from_ctx
      → get_elem? a.threads k ≡ some t
      → s' ≡ record a { current = some k; last_switch_tick = tick }
      → Committed a bootstrap_ctx tick k s' (some (from_ctx, context_ptr t))

is_current-true : (o : Option ℕ) (k : ℕ) → is_current o k ≡ true → o ≡ some k
is_current-true none k e = cc
is_current-true (some p) k e = ap some ((==_iff p k).0 e)

skips-true :
    (a : EevdfScheduler) (tick k : ℕ)
    → skips a tick k ≡ true
    → (a.current ≡ some k) × (tick ≢ 0) × (tick - a.last_switch_tick < min_time_slice)
skips-true a tick k t =
    let (here, rest) = &&-eq-true (is_current a.current k) _ t in
    let (timer, early) = &&-eq-true (not (tick == 0)) _ rest in
    (is_current-true a.current k here, ground arith, ltb→lt _ _ early)

from_context-eq-ok :
    (a : EevdfScheduler) (bootstrap_ctx : ℕ) (o : Option ℕ) {from_ctx : ℕ}
    → from_context a bootstrap_ctx o ≡ ok from_ctx
    → SavedIn a bootstrap_ctx o from_ctx
unfolding from_context
from_context-eq-ok a b none e = cc
from_context-eq-ok a b (some p) e =
    let (t, et, e1) = >>=-eq-ok (index a.threads p) _ e in (t, or_panic-eq-ok _ et, cc)

switch_to-eq-ok :
    (a : EevdfScheduler) (bootstrap_ctx tick k : ℕ) {s' : EevdfScheduler} {r : Option (ℕ × ℕ)}
    → switch_to a bootstrap_ctx tick k ≡ ok (s', r)
    → Committed a bootstrap_ctx tick k s' r
unfolding switch_to
switch_to-eq-ok a b tick k {s'} {r} e =
    let (from_ctx, ef, e1) = >>=-eq-ok (from_context a b a.current) _ e in
    let (t, et, e2) = >>=-eq-ok (index a.threads k) _ e1 in
    let pair : some (from_ctx, context_ptr t) ≡ r = cc e2 in
    let state : s' ≡ record a { current = some k; last_switch_tick = tick } = cc e2 in
    subst (Committed a b tick k s') pair
      (switched from_ctx t (from_context-eq-ok a b a.current ef) (or_panic-eq-ok _ et) state)

commit-eq-ok :
    (a : EevdfScheduler) (bootstrap_ctx tick k : ℕ) {s' : EevdfScheduler} {r : Option (ℕ × ℕ)}
    → commit a bootstrap_ctx tick k ≡ ok (s', r)
    → Committed a bootstrap_ctx tick k s' r
unfolding commit
commit-eq-ok a b tick k {s'} {r} e = elim (Bool-cases (skips a tick k)) [
  | inl t ↦
      let e' : ok (a, none) ≡ ok (s', r) = rw t at e in
      let (here, timer, early) = skips-true a tick k t in
      let nothing : none ≡ r = cc e' in
      let state : s' ≡ a = cc e' in
      subst (Committed a b tick k s') nothing (skipped here timer early state)
  | inr t ↦ let e' : switch_to a b tick k ≡ ok (s', r) = rw t at e in switch_to-eq-ok a b tick k e'
]

SavedIn-same :
    (s a : EevdfScheduler) (b from_ctx : ℕ) (o : Option ℕ)
    → a.threads ≡ s.threads
    → SavedIn a b o from_ctx
    → SavedIn s b o from_ctx
SavedIn-same s a b from_ctx none q h = h
SavedIn-same s a b from_ctx (some p) q (t, found, e) = (t, rw (← q) found, e)

Committed-Outcome :
    (s a : EevdfScheduler) (b tick k : ℕ) {s' : EevdfScheduler} {r : Option (ℕ × ℕ)}
    → Accounted s (time_slice_of s tick) a
    → Chosen a (time_slice_of s tick) k
    → Committed a b tick k s' r
    → Outcome s b tick s' r
Committed-Outcome s a b tick k c h (skipped here timer early same) =
    keep k (rw same c) (rw same h) (rw (← c.same_current) here) timer (rw (← c.same_tick) early)
Committed-Outcome s a b tick k c h (switched from_ctx t saved found e) =
    switch a k from_ctx t c h
      (SavedIn-same s a b from_ctx s.current c.same_threads (rw (← c.same_current) saved))
      (rw (← c.same_threads) found) e

conclude-Outcome :
    (s a : EevdfScheduler) (b tick : ℕ) (next : Option ℕ) {s' : EevdfScheduler} {r : Option (ℕ × ℕ)}
    → IsValid a
    → Accounted s (time_slice_of s tick) a
    → choose a (time_slice_of s tick) ≡ ok next
    → conclude a b tick next ≡ ok (s', r)
    → Outcome s b tick s' r
unfolding conclude
conclude-Outcome s a b tick none {s'} {r} v c h e =
    let nothing : none ≡ r = cc e in
    let state : a ≡ s' = cc e in
    subst₂ (λ x y. Outcome s b tick x y) state nothing
      (all_blocked c (choose-none s (time_slice_of s tick) v c h))
conclude-Outcome s a b tick (some k) v c h e =
    Committed-Outcome s a b tick k c (choose-some s (time_slice_of s tick) k v c h)
      (commit-eq-ok a b tick k e)

-- In a valid scheduler every call that returns has one of four outcomes: no threads, all of them
-- blocked, the current thread kept, or a switch to the eligible thread of earliest deadline.
pub tick_prepare-Outcome :
    (s : EevdfScheduler) (bootstrap_ctx tick : ℕ) {s' : EevdfScheduler} {r : Option (ℕ × ℕ)}
    → IsValid s
    → tick_prepare s bootstrap_ctx tick ≡ ok (s', r)
    → Outcome s bootstrap_ctx tick s' r
unfolding tick_prepare tick_threads
tick_prepare-Outcome s b tick {s'} {r} v e = elim (Bool-cases (length s.threads == 0)) [
  | inl t ↦
      let e' : ok (s, none) ≡ ok (s', r) = rw t at e in
      let nothing : none ≡ r = cc e' in
      let state : s' ≡ s = cc e' in
      subst (Outcome s b tick s') nothing
        (no_threads (length-zero s.threads ((==_iff _ 0).0 t)) state)
  | inr t ↦
      let ts : ℕ = time_slice_of s tick in
      let e' : (account s ts >>= λ a. choose a ts >>= λ next. conclude a b tick next) ≡ ok (s', r) =
        rw t at e in
      let (a, ea, e1) = >>=-eq-ok (account s ts) _ e' in
      let (next, en, e2) = >>=-eq-ok (choose a ts) _ e1 in
      let c = account-eq-ok s ts ea in
      conclude-Outcome s a b tick next (Accounted-IsValid s ts v c) c en e2
]
