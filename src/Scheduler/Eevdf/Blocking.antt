-- ===== src/Scheduler/Eevdf/Blocking.antt =====
-- Blocking and unblocking threads in eevdf.rs: `block_current_and_prepare_switch` and
-- `unblock_thread`.
use molt_os.Prelude.{
  ℕ, zero, suc, ◌≤◌, ◌<◌, ◌≡◌, ◌≢◌, refl, ◌∙◌, Bool, true, false, Option, none, some, List, [], ◌∷◌,
  length, get_elem?, set, ok, subst, ap, arith, >>=-eq-ok, index, InRange, or_panic-eq-ok,
  get_elem?-set_self, get_elem?-lt-length, get_elem?_in_range,
}
use molt_os.Scheduler.Thread.{Thread}
use molt_os.Scheduler.Eevdf.{
  ThreadMeta, EevdfScheduler, runnable, mark, set_blocked, position_of, unblock_at, unblock_thread,
  block_at, block_current, block_current_and_prepare_switch,
}
use molt_os.Scheduler.Eevdf.Charge.{Grows}
use molt_os.Scheduler.Eevdf.Invariant.{IsValid, block_current-IsValid}
use molt_os.Scheduler.Eevdf.Tick.{
  Outcome, no_threads, all_blocked, keep, switch, tick_prepare-Outcome,
}
use molt_os.Scheduler.Eevdf.Switch.{
  tick_prepare-Runs, tick_prepare-Grows, Runs, eligible-not_blocked,
}

-- Entry `p` of the metadata is blocked.
abbrev pub IsBlockedAt : EevdfScheduler → ℕ → Type 0
IsBlockedAt s p = (m : ThreadMeta) → get_elem? s.metadata p ≡ some m → m.blocked ≡ true

Grows-blocked :
    (ms ns : List ThreadMeta) (p : ℕ) (n : ThreadMeta)
    → Grows ms ns
    → ((m : ThreadMeta) → get_elem? ms p ≡ some m → m.blocked ≡ true)
    → get_elem? ns p ≡ some n
    → n.blocked ≡ true
Grows-blocked [] [] p n g h e = cc
Grows-blocked [] (x ∷ ns) p n g h e = absurd g
Grows-blocked (x ∷ ms) [] p n g h e = absurd g
Grows-blocked (x ∷ ms) (y ∷ ns) zero n g h e = let same : y ≡ n = cc in rw (← same) (g.2 ∙ h x refl)
Grows-blocked (x ∷ ms) (y ∷ ns) (suc p) n g h e = Grows-blocked ms ns p n g.3 h e

mark-eq-ok :
    (s : EevdfScheduler) (b : Bool) (i : ℕ) {s' : EevdfScheduler}
    → mark b i s ≡ ok s'
    → (m : ThreadMeta) × (get_elem? s.metadata i ≡ some m)
      × (s' ≡ record s { metadata = set s.metadata i (set_blocked b m) })
unfolding mark
mark-eq-ok s b i e =
    let (m, em, e1) = >>=-eq-ok (index s.metadata i) _ e in (m, or_panic-eq-ok _ em, cc e1)

pub block_current-IsBlockedAt :
    (s : EevdfScheduler) (p : ℕ) {s' : EevdfScheduler}
    → s.current ≡ some p
    → block_current s ≡ ok s'
    → (s'.current ≡ some p) × IsBlockedAt s' p
unfolding block_current block_at
block_current-IsBlockedAt s p {s'} here e =
    let e' : mark true p s ≡ ok s' = subst (λ o. block_at o s ≡ ok s') here e in
    let (m, found, same) = mark-eq-ok s true p e' in
    let written =
      get_elem?-set_self s.metadata p (set_blocked true m)
        (get_elem?-lt-length s.metadata p found) in
    rw same (here, λ n g. let it : set_blocked true m ≡ n = cc (g) in rw (← it))

block_at-threads :
    (c : Option ℕ) (s : EevdfScheduler) {s' : EevdfScheduler}
    → block_at c s ≡ ok s'
    → s'.threads ≡ s.threads
unfolding block_at
block_at-threads none s e = cc
block_at-threads (some p) s e = let (m, found, same) = mark-eq-ok s true p e in rw same refl

-- Blocking changes no thread.
pub block_current-threads :
    (s : EevdfScheduler) {s' : EevdfScheduler} → block_current s ≡ ok s' → s'.threads ≡ s.threads
unfolding block_current
block_current-threads s e = block_at-threads s.current s e

Runs-moves : {s : EevdfScheduler} {g : ℕ} (p : ℕ) → Runs s g → IsBlockedAt s p → s.current ≢ some p
Runs-moves p runs asleep e =
    let same : runs.k ≡ p = cc (runs.is_current) in
    let blocked = asleep runs.meta (rw (← same) runs.meta_at) in cc (runs.not_blocked)

-- A thread that blocks itself is switched away from: where a switch is returned, another thread has
-- become current, and it is not blocked.
pub block_current_and_prepare_switch-leaves :
    (s : EevdfScheduler) (bootstrap_ctx tick p from_ctx to_ctx : ℕ) {s' : EevdfScheduler}
    → IsValid s
    → s.current ≡ some p
    → block_current_and_prepare_switch s bootstrap_ctx tick ≡ ok (s', some (from_ctx, to_ctx))
    → Runs s' to_ctx × (s'.current ≢ some p) × IsBlockedAt s' p
unfolding block_current_and_prepare_switch
block_current_and_prepare_switch-leaves s b tick p f g {s'} v here e =
    let (a, ea, e1) = >>=-eq-ok (block_current s) _ e in
    let w = block_current-IsValid s v ea in
    let (still, asleep) = block_current-IsBlockedAt s p here ea in
    let runs = tick_prepare-Runs a b tick f g w e1 in
    let asleep' : IsBlockedAt s' p =
      λ n. Grows-blocked a.metadata s'.metadata p n (tick_prepare-Grows a b tick w e1) asleep in
    (runs, Runs-moves p runs asleep', asleep')

Outcome-none :
    (s : EevdfScheduler) (b tick p : ℕ) {s' : EevdfScheduler} {r : Option (ℕ × ℕ)}
    → IsValid s
    → s.current ≡ some p
    → IsBlockedAt s p
    → Outcome s b tick s' r
    → r ≡ none
    → runnable s'.metadata ≡ []
Outcome-none s b tick p v here asleep (no_threads empty _) e =
    let inside : p < length s.threads =
      subst (λ o. InRange o (length s.threads)) here v.current_in in
    absurd (omega (arith, ap length empty))
Outcome-none s b tick p v here asleep (all_blocked _ idle) e = idle
Outcome-none s b tick p {s'} v here asleep (keep k c h still _ _) e =
    let best = h.earliest in
    let same : k ≡ p = cc in
    let blocked =
      Grows-blocked s.metadata s'.metadata k best.meta c.grows (rw same asleep) best.found in
    absurd (cc (eligible-not_blocked _ best.meta best.passes))
Outcome-none s b tick p v here asleep (switch a k from_ctx t _ _ _ _ _) e = cc

-- When a thread that blocks itself is told that there is nothing to switch to, every thread is
-- blocked: the deadlock that the callers report is one.
pub block_current_and_prepare_switch-deadlock :
    (s : EevdfScheduler) (bootstrap_ctx tick p : ℕ) {s' : EevdfScheduler}
    → IsValid s
    → s.current ≡ some p
    → block_current_and_prepare_switch s bootstrap_ctx tick ≡ ok (s', none)
    → runnable s'.metadata ≡ []
unfolding block_current_and_prepare_switch
block_current_and_prepare_switch-deadlock s b tick p {s'} v here e =
    let (a, ea, e1) = >>=-eq-ok (block_current s) _ e in
    let w = block_current-IsValid s v ea in
    let (still, asleep) = block_current-IsBlockedAt s p here ea in
    Outcome-none a b tick p w still asleep (tick_prepare-Outcome a b tick w e1) refl

position_of-first :
    (id i : ℕ) (ts : List Thread) (t : Thread)
    → get_elem? ts i ≡ some t
    → t.id ≡ id
    → ((j : ℕ) (u : Thread) → get_elem? ts j ≡ some u → u.id ≡ id → i ≤ j)
    → position_of id ts ≡ some i
unfolding position_of
position_of-first id i [] t e q h = cc
position_of-first id zero (x ∷ ts) t e q h = ground (arith)
position_of-first id (suc i) (x ∷ ts) t e q h =
    ground (
      arith,
      h 0 x refl,
      position_of-first id i ts t e q (λ j u g r. omega (arith, h (suc j) u g r)),
    )

-- The first thread of the given id is made runnable, and nothing else of the scheduler changes.
pub unblock_thread-wakes :
    (s : EevdfScheduler) (id i : ℕ) (t : Thread)
    → IsValid s
    → get_elem? s.threads i ≡ some t
    → t.id ≡ id
    → ((j : ℕ) (u : Thread) → get_elem? s.threads j ≡ some u → u.id ≡ id → i ≤ j)
    → (m : ThreadMeta) × (get_elem? s.metadata i ≡ some m)
      × (unblock_thread s id ≡ ok (record s { metadata = set s.metadata i (set_blocked false m) }))
unfolding unblock_thread unblock_at mark
unblock_thread-wakes s id i t v e q h =
    let (m, em) =
      get_elem?_in_range s.metadata i
        (omega (arith, v.paired, get_elem?-lt-length s.threads i e)) in
    (m, em, rw (position_of-first id i s.threads t e q h, em))
