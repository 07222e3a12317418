-- ===== src/Scheduler/Eevdf/NoPanic.antt =====
-- When the arithmetic of eevdf.rs cannot overflow, no method panics.
use native.Mathlib.Nat.{mul-le-mul_left}
use molt_os.Prelude.{
  ℕ, ◌*◌, ◌^◌, ◌≤◌, ◌<◌, ◌≡◌, inl, inr, refl, Bool, true, false, Option, none, some, List, [], ◌∷◌,
  ltb, ◌==◌, if◌then◌else◌, length, ok, subst, sym, All, arith, Bool-cases, word, InRange,
  get_elem?_in_range, get_elem?-lt-length, All-get_elem?,
}
use molt_os.Scheduler.Thread.{context_ptr}
use molt_os.Scheduler.Eevdf.{
  ThreadMeta, EevdfScheduler, runnable, min_by_deadline, candidates, pick_from, pick, account,
  choose, min_vruntime_or, skips, from_context, switch_to, commit, conclude, tick_threads,
  tick_prepare, time_slice_of,
}
use molt_os.Scheduler.Eevdf.Candidates.{candidates-All}
use molt_os.Scheduler.Eevdf.Invariant.{IsValid, Accounted, account-eq-ok, Accounted-IsValid}
use molt_os.Scheduler.Eevdf.Tick.{limit_of, choose-some}
use molt_os.Scheduler.Eevdf.Sums.{
  total, total-Grows, sum_weights-total, charge-total, virtual_deadline-total,
}
pub use molt_os.Scheduler.Eevdf.Sums.{VruntimeBelow}

abbrev Low : ℕ × ThreadMeta → Type 0
Low c = VruntimeBelow (2 ^ 63) c.1

Low-better : (b : Bool) (c d : ℕ × ThreadMeta) → Low c → Low d → Low (if b then c else d)
Low-better true c d h k = h
Low-better false c d h k = k

min_by_deadline-total :
    (ts sum : ℕ) (best : ℕ × ThreadMeta) (cs : List (ℕ × ThreadMeta))
    → ts * sum * 1024 < 2 ^ 62
    → Low best
    → All Low cs
    → (r : ℕ × ThreadMeta) × (min_by_deadline ts sum best cs ≡ ok r)
unfolding min_by_deadline
min_by_deadline-total ts sum best [] h low lows = (best, refl)
min_by_deadline-total ts sum best (c ∷ cs) h low lows =
    let (a, ea) = virtual_deadline-total best.1 ts sum low h in
    let (b, eb) = virtual_deadline-total c.1 ts sum lows.0 h in
    let (r, er) =
      min_by_deadline-total ts sum (if ltb b a then c else best) cs h
        (Low-better (ltb b a) c best lows.0 low) lows.1 in
    (r, rw (ea, eb) er)

pick-total :
    (ts sum limit : ℕ) (ms : List ThreadMeta)
    → ts * sum * 1024 < 2 ^ 62
    → All (VruntimeBelow (2 ^ 63)) ms
    → (next : Option ℕ) × (pick ts sum limit ms ≡ ok next)
unfolding pick pick_from
pick-total ts sum limit ms h low = go (candidates limit 0 ms) (
    candidates-All limit Low 0 ms
      (λ k j m e g t. All-get_elem? (VruntimeBelow (2 ^ 63)) ms j m low g))
  where
    go :
        (cs : List (ℕ × ThreadMeta))
        → All Low cs
        → (next : Option ℕ) × (pick_from ts sum ms cs ≡ ok next)
    go [] a = (_, refl)
    go (c ∷ cs) a = let (r, er) = min_by_deadline-total ts sum c cs h a.0 a.1 in (some r.0, rw er)

choose-total :
    (a : EevdfScheduler) (ts : ℕ)
    → total a.metadata < word
    → ts * total a.metadata * 1024 < 2 ^ 62
    → All (VruntimeBelow (2 ^ 63)) a.metadata
    → (next : Option ℕ) × (choose a ts ≡ ok next)
unfolding choose
choose-total a ts w h low =
    let (sum, es, le) = sum_weights-total a.metadata w in
    let small : ts * sum ≤ ts * total a.metadata = mul-le-mul_left ts le in
    let (next, en) = pick-total ts sum (limit_of a sum) a.metadata (omega arith) low in
    (next, rw es en)

from_context-total :
    (a : EevdfScheduler) (b : ℕ) (o : Option ℕ)
    → InRange o (length a.threads)
    → (from_ctx : ℕ) × (from_context a b o ≡ ok from_ctx)
unfolding from_context
from_context-total a b none r = (b, refl)
from_context-total a b (some p) r =
    let (t, et) = get_elem?_in_range a.threads p r in (context_ptr t, rw et)

commit-total :
    (a : EevdfScheduler) (b tick k : ℕ)
    → InRange a.current (length a.threads)
    → k < length a.threads
    → (out : EevdfScheduler × Option (ℕ × ℕ)) × (commit a b tick k ≡ ok out)
unfolding commit switch_to
commit-total a b tick k r h = elim (Bool-cases (skips a tick k)) [
  | inl t ↦ ((a, none), rw t)
  | inr t ↦
      let (from_ctx, ef) = from_context-total a b a.current r in
      let (u, eu) = get_elem?_in_range a.threads k h in
      (
        (record a { current = some k; last_switch_tick = tick }, some (from_ctx, context_ptr u)),
        rw (t, ef, eu),
      )
]

-- The numbers of a scheduler leave room for one more tick: the vruntimes have 62 bits, and the time
-- slice times the sum of all weights, scaled by 1024, has 62 bits.
pub record HasRoom (s : EevdfScheduler) (tick : ℕ) : Type 0 where
  pub slice : time_slice_of s tick * total s.metadata * 1024 < 2 ^ 62
  pub weights : total s.metadata < word
  pub vruntimes : All (VruntimeBelow (2 ^ 62)) s.metadata

conclude-total :
    (s a : EevdfScheduler) (b tick : ℕ) (next : Option ℕ)
    → IsValid a
    → Accounted s (time_slice_of s tick) a
    → choose a (time_slice_of s tick) ≡ ok next
    → (out : EevdfScheduler × Option (ℕ × ℕ)) × (conclude a b tick next ≡ ok out)
unfolding conclude
conclude-total s a b tick none w c h = ((a, none), refl)
conclude-total s a b tick (some k) w c h =
    let best = (choose-some s (time_slice_of s tick) k w c h).earliest in
    commit-total a b tick k w.current_in
      (omega (arith, w.paired, get_elem?-lt-length a.metadata k best.found))

-- A valid scheduler whose numbers leave room for one more tick does not panic.
pub tick_prepare-total :
    (s : EevdfScheduler) (bootstrap_ctx tick : ℕ)
    → IsValid s
    → HasRoom s tick
    → (out : EevdfScheduler × Option (ℕ × ℕ)) × (tick_prepare s bootstrap_ctx tick ≡ ok out)
unfolding tick_prepare tick_threads account
tick_prepare-total s b tick v room = elim (Bool-cases (length s.threads == 0)) [
  | inl t ↦ ((s, none), rw t)
  | inr t ↦
      let ts : ℕ = time_slice_of s tick in
      let (ns, en, low) =
        charge-total s.current s.metadata ts (subst (InRange s.current) (sym v.paired) v.current_in)
          room.weights room.slice room.vruntimes in
      let a : EevdfScheduler = record s {
        metadata = ns;
        min_vruntime = min_vruntime_or s.min_vruntime (runnable ns);
      } in
      let ea : account s ts ≡ ok a = rw en in
      let c = account-eq-ok s ts ea in
      let same = total-Grows s.metadata ns c.grows in
      let (next, ex) = choose-total a ts (rw same room.weights) (rw same room.slice) low in
      let (out, eo) = conclude-total s a b tick next (Accounted-IsValid s ts v c) c ex in
      (out, rw (t, en, ex) eo)
]
