-- ===== src/Scheduler/Eevdf/Invariant.antt =====
-- The representation invariant of `EevdfScheduler` (eevdf.rs), and that every method keeps it.
use molt_os.Prelude.{
  ℕ, ◌≤◌, ◌<◌, ◌≡◌, refl, min, max, Bool, true, false, Option, none, some, List, [], ◌∷◌, ◌++◌,
  length, set, ok, subst, ap, All, arith, >>=-eq-ok, word, index, InRange, or_panic-eq-ok,
  length-append, length-set, All-set, All-append, All-get_elem?,
}
use molt_os.Scheduler.Thread.{Thread}
use molt_os.Scheduler.Eevdf.{
  ThreadMeta, EevdfScheduler, new, spawn, spawn_with_weight, unblock_thread, mark, position_of,
  set_blocked, fresh_meta, runnable, min_vruntime_or, min_from, charge, account, block_at,
  block_current, unblock_at,
}
use molt_os.Scheduler.Eevdf.Charge.{Grows, length-Grows, charge-Grows, MetaFits, charge-MetaFits}

-- Each thread has its metadata, the current index is one of theirs, weights are positive and all
-- numbers are 64-bit words.
pub record IsValid (s : EevdfScheduler) : Type 0 where
  pub paired : length s.metadata ≡ length s.threads
  pub current_in : InRange s.current (length s.threads)
  pub metas_fit : All MetaFits s.metadata
  pub min_fits : s.min_vruntime < word

pub new-IsValid : IsValid new
new-IsValid = omega arith

InRange-mono : (o : Option ℕ) (m n : ℕ) → m ≤ n → InRange o m → InRange o n
InRange-mono none m n h r = tt
InRange-mono (some i) m n h r = omega arith

-- Adding a thread with a positive 64-bit weight.
push-IsValid :
    (s : EevdfScheduler) (t : Thread) (m : ThreadMeta)
    → MetaFits m
    → IsValid s
    → IsValid (record s { threads = s.threads ++ (t ∷ []); metadata = s.metadata ++ (m ∷ []) })
push-IsValid s t m f v = record {
  paired =
      omega (arith, v.paired, length-append s.threads (t ∷ []), length-append s.metadata (m ∷ []));
  current_in =
      InRange-mono s.current (length s.threads) (length (s.threads ++ (t ∷ [])))
        (omega (arith, length-append s.threads (t ∷ []))) v.current_in;
  metas_fit = All-append MetaFits s.metadata (m ∷ []) v.metas_fit (f, tt);
  min_fits = v.min_fits;
}

pub spawn-IsValid : (s : EevdfScheduler) (t : Thread) → IsValid s → IsValid (spawn s t)
unfolding spawn
spawn-IsValid s t v = push-IsValid s t fresh_meta (omega arith) v

pub spawn_with_weight-IsValid :
    (s : EevdfScheduler) (t : Thread) (weight : ℕ)
    → weight < word
    → IsValid s
    → IsValid (spawn_with_weight s t weight)
unfolding spawn_with_weight
spawn_with_weight-IsValid s t weight h v =
    push-IsValid s t (record fresh_meta { weight = max weight 1 }) (omega arith) v

mark-IsValid :
    (b : Bool) (i : ℕ) (s : EevdfScheduler) {s' : EevdfScheduler}
    → IsValid s
    → mark b i s ≡ ok s'
    → IsValid s'
unfolding mark
mark-IsValid b i s v e =
    let (m, em, e1) = >>=-eq-ok (index s.metadata i) _ e in
    let fits = All-get_elem? MetaFits s.metadata i m v.metas_fit (or_panic-eq-ok _ em) in
    let marked : IsValid (record s { metadata = set s.metadata i (set_blocked b m) }) = record {
      paired = omega (arith, v.paired, length-set s.metadata i (set_blocked b m));
      current_in = v.current_in;
      metas_fit = All-set MetaFits s.metadata i (set_blocked b m) fits v.metas_fit;
      min_fits = v.min_fits;
    } in
    subst IsValid (cc) marked

pub unblock_thread-IsValid :
    (s : EevdfScheduler) (id : ℕ) {s' : EevdfScheduler}
    → IsValid s
    → unblock_thread s id ≡ ok s'
    → IsValid s'
unfolding unblock_thread unblock_at
unblock_thread-IsValid s id {s'} v e = go (position_of id s.threads) e
  where
    go : (o : Option ℕ) → unblock_at o s ≡ ok s' → IsValid s'
    go none e = subst IsValid (cc) v
    go (some i) e = mark-IsValid false i s v e

pub block_current-IsValid :
    (s : EevdfScheduler) {s' : EevdfScheduler} → IsValid s → block_current s ≡ ok s' → IsValid s'
unfolding block_current block_at
block_current-IsValid s {s'} v e = go s.current e
  where
    go : (o : Option ℕ) → block_at o s ≡ ok s' → IsValid s'
    go none e = subst IsValid (cc) v
    go (some i) e = mark-IsValid true i s v e

min_from-le : (best : ℕ) (ms : List ThreadMeta) → min_from best ms ≤ best
unfolding min_from
min_from-le best [] = omega arith
min_from-le best (m ∷ ms) = omega (arith, min_from-le (min best m.vruntime) ms)

runnable-MetaFits : (ms : List ThreadMeta) → All MetaFits ms → All MetaFits (runnable ms)
unfolding runnable
runnable-MetaFits [] a = tt
runnable-MetaFits (m ∷ ms) a = ground (arith, runnable-MetaFits ms a.1)

min_vruntime_or-lt-word :
    (d : ℕ) (rs : List ThreadMeta) → d < word → All MetaFits rs → min_vruntime_or d rs < word
unfolding min_vruntime_or
min_vruntime_or-lt-word d [] h a = h
min_vruntime_or-lt-word d (m ∷ rs) h a = omega (arith, min_from-le m.vruntime rs)

-- What the bookkeeping of a tick does to the scheduler: only the metadata and `min_vruntime` change,
-- no vruntime falls, and `min_vruntime` is the least of the runnable threads'.
pub record Accounted (s : EevdfScheduler) (time_slice : ℕ) (a : EevdfScheduler) : Type 0 where
  pub charged : charge s.current s.metadata time_slice ≡ ok a.metadata
  pub grows : Grows s.metadata a.metadata
  pub least : a.min_vruntime ≡ min_vruntime_or s.min_vruntime (runnable a.metadata)
  pub same_threads : a.threads ≡ s.threads
  pub same_current : a.current ≡ s.current
  pub same_tick : a.last_switch_tick ≡ s.last_switch_tick

pub account-eq-ok :
    (s : EevdfScheduler) (time_slice : ℕ) {a : EevdfScheduler}
    → account s time_slice ≡ ok a
    → Accounted s time_slice a
unfolding account
account-eq-ok s ts {a} e =
    let (ms, em, e1) = >>=-eq-ok (charge s.current s.metadata ts) _ e in
    let whole : record s {
      metadata = ms;
      min_vruntime = min_vruntime_or s.min_vruntime (runnable ms);
    }
        ≡ a =
      cc in
    subst (Accounted s ts) whole (record {
      charged = em;
      grows = charge-Grows s.current s.metadata ts em;
      least = refl;
      same_threads = refl;
      same_current = refl;
      same_tick = refl;
    })

pub Accounted-IsValid :
    (s : EevdfScheduler) (time_slice : ℕ) {a : EevdfScheduler}
    → IsValid s
    → Accounted s time_slice a
    → IsValid a
Accounted-IsValid s ts {a} v c =
    let fits = charge-MetaFits s.current s.metadata ts v.metas_fit c.charged in
    record {
      paired =
          omega
            (arith, v.paired, length-Grows s.metadata a.metadata c.grows, ap length c.same_threads);
      current_in = rw (c.same_current, c.same_threads) v.current_in;
      metas_fit = fits;
      min_fits = rw c.least (
          min_vruntime_or-lt-word s.min_vruntime (runnable a.metadata) v.min_fits
            (runnable-MetaFits a.metadata fits));
    }
