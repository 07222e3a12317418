-- ===== src/Task/Executor/Asleep.antt =====
-- executor.rs and sleep.rs together: a task that sleeps.
use molt_os.Prelude.{
  ℕ, ◌≤◌, ◌<◌, ◌≡◌, refl, ap, ◌∙◌, true, false, some, List, [], ◌∷◌, ◌++◌, ◌==◌, ==_iff,
  if◌then◌else◌, leb, le→leb, length, All, ok, arith,
}
use molt_os.Task.Keyboard.{ArrayQueue, IsArrayQueue}
use molt_os.Task.Sleep.{Sleep, poll}
use molt_os.Task.Sleep.Waking.{due, waiting}
use molt_os.Task.Executor.{Future, Executor, World, get, remove, update, run_once, run_at}
use molt_os.Task.Executor.Drained.{poll_once, polled}
use molt_os.Task.Executor.Passes.{run_once-polls}

-- A task that only awaits a `Sleep`.
abbrev pub sleeping : {W : Type 0} → Future Sleep (World W)
sleeping = record {
  poll =
      λ s id w. let p = poll s w.clock id w.sleepers in (p.0, p.2, [], record w { sleepers = p.1 });
}

module _ {Q W : Type 0} (a : ArrayQueue Q) (law : IsArrayQueue a) where
  abbrev task : Future Sleep (World W)
  task = sleeping

  -- A poll of the only task.
  poll_only :
      (id : ℕ) (s : Sleep) (w : World W)
      → poll_once a task id ((id, s) ∷ [], w) ≡ (
        if (poll s w.clock id w.sleepers).2
            then []
            else (id, (poll s w.clock id w.sleepers).0) ∷ [],
        record w { sleepers = (poll s w.clock id w.sleepers).1 },
      )
  unfolding poll_once get remove update
  poll_only id s w =
      let same : (id == id) ≡ true = (==_iff id id).1 refl in
      let there : get id ((id, s) ∷ []) ≡ some s = rw same refl in
      let gone : remove id ((id, s) ∷ []) ≡ [] = rw same refl in
      let polled_future = (poll s w.clock id w.sleepers).0 in
      let kept : update id polled_future ((id, s) ∷ []) ≡ (id, polled_future) ∷ [] = rw same refl in
      rw (there, poll_once, gone, kept) refl

  -- The task `id` sleeps until its tick: it is not queued, and the sleepers know it.
  pub record Parked (id : ℕ) (s : Sleep) (e : Executor Sleep Q) (w : World W) : Type 0 where
    pub kept : e.tasks ≡ (id, record s { registered = true }) ∷ []
    pub idle : law.contents e.task_queue ≡ []
    pub room : 1 ≤ law.capacity e.task_queue
    pub known : w.sleepers ≡ (s.target_tick, id) ∷ []

  -- The first poll, before the tick.
  first_turn :
      (id : ℕ) (s : Sleep) (fuel tick : ℕ) (e : Executor Sleep Q) (w : World W)
      → e.tasks ≡ (id, s) ∷ []
      → law.contents e.task_queue ≡ id ∷ []
      → 1 ≤ law.capacity e.task_queue
      → w.sleepers ≡ []
      → s.registered ≡ false
      → tick < s.target_tick
      → 1 < fuel
      → (e' : Executor Sleep Q) × (w' : World W) × (run_once a task fuel e
            (record w { clock = tick })
          ≡ ok (e', w', true, true))
        × Parked id s e' w'
  unfolding polled waiting poll due
  first_turn id s fuel tick e w only queued room none_asleep fresh early enough =
      let w0 : World W = record w { clock = tick } in
      let not_yet : leb s.target_tick tick ≡ false = ground arith in
      let no_due : due tick w.sleepers ≡ [] = rw none_asleep refl in
      let (e', w', ran, empty, same, left) =
        run_once-polls a task law (λ t i env. refl) (id ∷ []) fuel e w0 queued
          (omega (arith, ap length no_due)) (omega (arith, ap length no_due)) in
      let left' : (e'.tasks, w') ≡ (
        (id, record s { registered = true }) ∷ [],
        record w0 { sleepers = (s.target_tick, id) ∷ [] },
      ) =
        left
        ∙ ap
            (λ (l : List ℕ).
              polled a task ((id ∷ []) ++ l)
                (e.tasks, record w0 { sleepers = waiting tick w.sleepers }))
            no_due
        ∙ rw (only, none_asleep, polled, waiting)
            (poll_only id s (record w0 { sleepers = [] }) ∙ rw (poll, not_yet, fresh) refl) in
      (
        e',
        w',
        ran,
        record {
          kept = ap (λ p. p.0) left';
          idle = empty;
          room = rw same room;
          known = ap (λ p. p.1.sleepers) left';
        },
      )

  early_turn :
      (id : ℕ) (s : Sleep) (fuel tick : ℕ) (e : Executor Sleep Q) (w : World W)
      → Parked id s e w
      → tick < s.target_tick
      → 0 < fuel
      → (e' : Executor Sleep Q) × (w' : World W) × (run_once a task fuel e
            (record w { clock = tick })
          ≡ ok (e', w', true, true))
        × Parked id s e' w'
  unfolding polled waiting due
  early_turn id s fuel tick e w v early enough =
      let w0 : World W = record w { clock = tick } in
      let not_yet : leb s.target_tick tick ≡ false = ground arith in
      let no_due : due tick w.sleepers ≡ [] = rw (v.known, due, not_yet) refl in
      let same_sleepers : waiting tick w.sleepers ≡ (s.target_tick, id) ∷ [] =
        rw (v.known, waiting, not_yet) refl in
      let (e', w', ran, empty, same, left) =
        run_once-polls a task law (λ t i env. refl) [] fuel e w0 v.idle
          (omega (arith, ap length no_due)) (omega (arith, ap length no_due)) in
      let left' : (e'.tasks, w') ≡ (e.tasks, record w0 { sleepers = (s.target_tick, id) ∷ [] }) =
        left ∙ rw (no_due, same_sleepers, polled) refl in
      (
        e',
        w',
        ran,
        record {
          kept = ap (λ p. p.0) left' ∙ v.kept;
          idle = empty;
          room = rw same v.room;
          known = ap (λ p. p.1.sleepers) left';
        },
      )

  late_turn :
      (id : ℕ) (s : Sleep) (fuel tick : ℕ) (e : Executor Sleep Q) (w : World W)
      → Parked id s e w
      → s.target_tick ≤ tick
      → 1 < fuel
      → (e' : Executor Sleep Q) × (w' : World W) × (run_once a task fuel e
            (record w { clock = tick })
          ≡ ok (e', w', true, true))
        × (e'.tasks ≡ [])
        × (w'.sleepers ≡ [])
  unfolding polled waiting due poll
  late_turn id s fuel tick e w v late enough =
      let w0 : World W = record w { clock = tick } in
      let come : leb s.target_tick tick ≡ true = le→leb s.target_tick tick late in
      let now_due : due tick w.sleepers ≡ id ∷ [] = rw (v.known, due, come) refl in
      let none_left : waiting tick w.sleepers ≡ [] = rw (v.known, waiting, come) refl in
      let (e', w', ran, empty, same, left) =
        run_once-polls a task law (λ t i env. refl) [] fuel e w0 v.idle
          (omega (arith, ap length now_due, v.room)) (omega (arith, ap length now_due)) in
      let left' : (e'.tasks, w') ≡ ([], record w0 { sleepers = [] }) =
        left
        ∙ rw (now_due, none_left, v.kept, polled)
            (poll_only id (record s { registered = true }) (record w0 { sleepers = [] })
              ∙ rw (poll, come) refl) in
      (e', w', ran, ap (λ p. p.0) left', ap (λ p. p.1.sleepers) left')

  early_turns :
      (id : ℕ) (s : Sleep) (fuel : ℕ) (ticks : List ℕ) (e : Executor Sleep Q) (w : World W)
      → Parked id s e w
      → All (λ t. t < s.target_tick) ticks
      → 0 < fuel
      → (e' : Executor Sleep Q) × (w' : World W) × (run_at a task fuel ticks e w ≡ ok (e', w'))
        × Parked id s e' w'
  unfolding run_at
  early_turns id s fuel [] e w v early enough = (e, w, refl, v)
  early_turns id s fuel (t ∷ ticks) e w v early enough =
      let (e1, w1, turned, v1) = early_turn id s fuel t e w v early.0 enough in
      let (e2, w2, ran, v2) = early_turns id s fuel ticks e1 w1 v1 early.1 enough in
      (e2, w2, rw (run_at, turned) ran, v2)

  -- A task that sleeps until a tick, alone in the executor: through any turns of `run` before the
  -- tick, the first of which polls it, the task stays, its sleeper is kept and the queue is empty; the
  -- first turn at or after the tick polls it, and it is done and gone with its sleeper. Fuel of two
  -- ends each turn's loop.
  pub run_at-wakes :
      (id : ℕ) (s : Sleep) (fuel first late : ℕ) (ticks : List ℕ) (e : Executor Sleep Q)
      (w : World W)
      → e.tasks ≡ (id, s) ∷ []
      → law.contents e.task_queue ≡ id ∷ []
      → 1 ≤ law.capacity e.task_queue
      → w.sleepers ≡ []
      → s.registered ≡ false
      → All (λ t. t < s.target_tick) (first ∷ ticks)
      → s.target_tick ≤ late
      → 1 < fuel
      → (e' : Executor Sleep Q) × (w' : World W) × (run_at a task fuel (first ∷ ticks) e w
          ≡ ok (e', w'))
        × Parked id s e' w'
        × (e'' : Executor Sleep Q) × (w'' : World W) × (run_once a task fuel e'
              (record w' { clock = late })
            ≡ ok (e'', w'', true, true))
        × (e''.tasks ≡ [])
        × (w''.sleepers ≡ [])
  unfolding run_at
  run_at-wakes id s fuel first late ticks e w only queued room none_asleep fresh early come enough =
      let (e1, w1, turned, v1) =
        first_turn id s fuel first e w only queued room none_asleep fresh early.0 enough in
      let (e2, w2, ran, v2) = early_turns id s fuel ticks e1 w1 v1 early.1 (omega arith) in
      let (e3, w3, woke, done, nobody) = late_turn id s fuel late e2 w2 v2 come enough in
      (e2, w2, rw (run_at, turned) ran, v2, e3, w3, woke, done, nobody)
