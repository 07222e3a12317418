-- ===== src/Sync/Irq/Alone.antt =====
-- `IrqMutex` (src/sync.rs) is free whenever it is asked for.
use molt_os.Prelude.{ℕ, ◌≡◌, ◌⊎◌, refl, ap, ◌∙◌, Bool, true, false, Option, none, some, arith}
use molt_os.Sync.Irq.{
  Place, outside, checked, asking, holding, released, switching, Core, Ending, drop,
  release_without_irq_restore, act, Machine, start, goto, Step, run, set_flag, switch, interrupt,
  handle, return, Reach, here, after,
}
use molt_os.Sync.Irq.Found.{found, kept, Reach-Keeps}

-- The places with interrupts disabled.
abbrev pub masked : Place → Bool
masked outside = false
masked (checked was) = false
masked p = true

abbrev pub holds : Place → Bool
holds (holding was) = true
holds p = false

-- In a handler the flag was clear, so a guard of it restores nothing.
abbrev pub quiet : Place → Bool
quiet (checked true) = false
quiet (asking true) = false
quiet (holding true) = false
quiet (released true) = false
quiet switching = false
quiet p = true

abbrev pub handler_holds : Option Place → Bool
handler_holds none = false
handler_holds (some p) = holds p

abbrev pub handler_quiet : Option Place → Bool
handler_quiet none = true
handler_quiet (some p) = quiet p

pub record Alone (s : Machine) : Type 0 where
  pub only_running :
      (t : ℕ)
      → masked (s.place t) ≡ true
      → (t ≡ s.running) × (s.core.irq ≡ false) × (s.handler ≡ none)
  pub handling : (p : Place) → s.handler ≡ some p → (s.core.irq ≡ false) × (quiet p ≡ true)
  pub holder :
      s.core.held ≡ true → (holds (s.place s.running) ≡ true) ⊎ (handler_holds s.handler ≡ true)

run-Alone :
    (q : Place) (s : Machine) (way : Ending) (p : Place) (c : Core)
    → s.place s.running ≡ q
    → s.handler ≡ none
    → act q way s.core ≡ some (p, c)
    → Alone s
    → Alone (goto p c s)
unfolding act
run-Alone outside s way p c at h e v = record {
  only_running = λ t m. ground (arith, v.only_running t, v.only_running s.running);
  handling = λ x e'. cc;
  holder = λ q. ground (arith, v.holder);
}
run-Alone (checked was) s way p c at h e v = record {
  only_running = λ t m. ground (arith, v.only_running t, v.only_running s.running);
  handling = λ x e'. cc;
  holder = λ q. ground (arith, v.holder);
}
run-Alone (asking was) s way p c at h e v = record {
  only_running = λ t m. ground (arith, v.only_running t, v.only_running s.running);
  handling = λ x e'. cc;
  holder = λ q. ground (arith, v.holder);
}
run-Alone (holding was) s drop p c at h e v = record {
  only_running = λ t m. ground (arith, v.only_running t, v.only_running s.running);
  handling = λ x e'. cc;
  holder = λ q. ground (arith, v.holder);
}
run-Alone (holding was) s release_without_irq_restore p c at h e v = record {
  only_running = λ t m. ground (arith, v.only_running t, v.only_running s.running);
  handling = λ x e'. cc;
  holder = λ q. ground (arith, v.holder);
}
run-Alone (released was) s way p c at h e v = record {
  only_running = λ t m. ground (arith, v.only_running t, v.only_running s.running);
  handling = λ x e'. cc;
  holder = λ q. ground (arith, v.holder);
}
run-Alone switching s way p c at h e v = cc

handle-Alone :
    (q : Place) (s : Machine) (p : Place) (c : Core)
    → s.handler ≡ some q
    → act q drop s.core ≡ some (p, c)
    → Alone s
    → Alone (record s { core = c; handler = some p })
unfolding act
handle-Alone outside s p c at e v = record {
  only_running = λ t m. let (_, _, idle) = v.only_running t m in cc;
  handling = λ x e'. ground (arith, v.handling outside);
  holder = λ k. ground (arith, v.holder, v.only_running s.running);
}
handle-Alone (checked true) s p c at e v = record {
  only_running = λ t m. let (_, _, idle) = v.only_running t m in cc;
  handling = λ x e'. ground (arith, v.handling (checked true));
  holder = λ k. ground (arith, v.holder, v.only_running s.running);
}
handle-Alone (checked false) s p c at e v = record {
  only_running = λ t m. let (_, _, idle) = v.only_running t m in cc;
  handling = λ x e'. ground (arith, v.handling (checked false));
  holder = λ k. ground (arith, v.holder, v.only_running s.running);
}
handle-Alone (asking true) s p c at e v = record {
  only_running = λ t m. let (_, _, idle) = v.only_running t m in cc;
  handling = λ x e'. ground (arith, v.handling (asking true));
  holder = λ k. ground (arith, v.holder, v.only_running s.running);
}
handle-Alone (asking false) s p c at e v = record {
  only_running = λ t m. let (_, _, idle) = v.only_running t m in cc;
  handling = λ x e'. ground (arith, v.handling (asking false));
  holder = λ k. ground (arith, v.holder, v.only_running s.running);
}
handle-Alone (holding true) s p c at e v = record {
  only_running = λ t m. let (_, _, idle) = v.only_running t m in cc;
  handling = λ x e'. ground (arith, v.handling (holding true));
  holder = λ k. ground (arith, v.holder, v.only_running s.running);
}
handle-Alone (holding false) s p c at e v = record {
  only_running = λ t m. let (_, _, idle) = v.only_running t m in cc;
  handling = λ x e'. ground (arith, v.handling (holding false));
  holder = λ k. ground (arith, v.holder, v.only_running s.running);
}
handle-Alone (released true) s p c at e v = record {
  only_running = λ t m. let (_, _, idle) = v.only_running t m in cc;
  handling = λ x e'. ground (arith, v.handling (released true));
  holder = λ k. ground (arith, v.holder, v.only_running s.running);
}
handle-Alone (released false) s p c at e v = record {
  only_running = λ t m. let (_, _, idle) = v.only_running t m in cc;
  handling = λ x e'. ground (arith, v.handling (released false));
  holder = λ k. ground (arith, v.holder, v.only_running s.running);
}
handle-Alone switching s p c at e v = cc

Step-Alone : {s s' : Machine} → Step s s' → Alone s → Alone s'
Step-Alone {s} (run way p c h e q) v = rw q (run-Alone (s.place s.running) s way p c refl h e v)
Step-Alone {s} (set_flag on h at q) v = rw q (record {
  only_running = λ t m. ground (arith, v.only_running t);
  handling = λ x e'. cc;
  holder = λ k. ground (arith, v.holder);
})
Step-Alone {s} (switch next h at q) v = rw q (record {
  only_running = λ t m. ground (arith, v.only_running t);
  handling = λ x e'. cc;
  holder = λ k. ground (arith, v.holder);
})
Step-Alone {s} (interrupt h on q) v = rw q (record {
  only_running = λ t m. ground (arith, v.only_running t);
  handling = λ x e'. ground arith;
  holder = λ k. ground (arith, v.holder, v.only_running s.running);
})
Step-Alone (handle p p' c h e q) v = rw q (handle-Alone p _ p' c h e v)
Step-Alone {s} (return next h q) v = rw q (record {
  only_running = λ t m. ground (arith, v.only_running t);
  handling = λ x e'. cc;
  holder = λ k. ground (arith, v.holder, v.only_running s.running);
})

start-Alone : (t : ℕ) → Alone (start t)
start-Alone t = record { only_running = λ u m. cc; handling = λ p e. cc; holder = λ k. cc }

Reach-Alone : (t : ℕ) {s : Machine} → Reach (start t) s → Alone s
Reach-Alone t here = start-Alone t
Reach-Alone t (after r st) = Step-Alone st (Reach-Alone t r)

quiet-false : (was : Bool) → quiet (released was) ≡ true → was ≡ false
quiet-false false e = refl
quiet-false true e = cc

restores :
    (was : Bool) (core : Core)
    → core.irq ≡ false
    → (c : Core) × (act (released was) drop core ≡ some (outside, c)) × (c.irq ≡ was)
unfolding act
restores true core off = (record core { irq = true }, refl, refl)
restores false core off = (core, refl, off)

-- However threads and interrupts interleave: who asks for the spin lock finds it free; a guard is held
-- with interrupts disabled and no interrupt being handled, or by the handler; and a drop that is under
-- way ends with the interrupt flag as it was when `lock` was called: as the thread found it then, and
-- clear in the handler.
pub Reach-free :
    (t : ℕ) {s : Machine} (r : Reach (start t) s) (was : Bool)
    → (s.place s.running ≡ asking was → s.core.held ≡ false)
      × (s.handler ≡ some (asking was) → s.core.held ≡ false)
      × ((u : ℕ)
          → s.place u ≡ holding was
          → (u ≡ s.running) × (s.core.irq ≡ false) × (s.handler ≡ none))
      × (s.place s.running ≡ released was
          → (c : Core) × (act (released was) drop s.core ≡ some (outside, c))
            × (c.irq ≡ found r s.running))
      × (s.handler ≡ some (released was)
          → (c : Core) × (act (released was) drop s.core ≡ some (outside, c)) × (c.irq ≡ false))
unfolding act
Reach-free t {s} r was =
    let v = Reach-Alone t r in
    let same = Reach-Keeps t r s.running was in
    (
      λ at. ground (arith, v.holder, v.only_running s.running),
      λ at. ground (arith, v.holder, v.only_running s.running),
      λ u at. ground (arith, v.only_running u),
      λ at.
          let (c, ended, flag) = restores was s.core (ground (arith, v.only_running s.running)) in
          (c, ended, flag ∙ same (ap kept at)),
      λ at.
          let (off, still) = v.handling (released was) at in
          let (c, ended, flag) = restores was s.core off in
          (c, ended, flag ∙ quiet-false was still),
    )
