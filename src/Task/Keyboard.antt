-- ===== src/Task/Keyboard.antt =====
-- src/task/keyboard.rs: the queue between the keyboard interrupt and the shell's stream of scancodes.
-- The queue is crossbeam's `ArrayQueue` and the waker futures' `AtomicWaker`; both are parameters.
pub mod Stream
pub mod Pending
use molt_os.Prelude.{
  ℕ, ◌+◌, ◌<◌, ◌≤◌, ◌≡◌, Option, none, some, List, [], ◌∷◌, ◌++◌, length, Checked, ok, panic,
}

-- A full queue refuses a push.
pub record ArrayQueue (Q : Type 0) : Type 0 where
  pub empty : ℕ → Q
  pub push : Q → ℕ → Option Q
  pub pop : Q → Option (ℕ × Q)

-- What `ArrayQueue` documents.
pub record IsArrayQueue {Q : Type 0} (a : ArrayQueue Q) : Type 0 where
  pub contents : Q → List ℕ
  pub capacity : Q → ℕ
  pub empty_contents : (n : ℕ) → contents (a.empty n) ≡ []
  pub empty_capacity : (n : ℕ) → capacity (a.empty n) ≡ n
  pub push_room :
      (q : Q) (v : ℕ)
      → length (contents q) < capacity q
      → (q' : Q) × (a.push q v ≡ some q')
        × (contents q' ≡ contents q ++ (v ∷ []))
        × (capacity q' ≡ capacity q)
  pub push_full : (q : Q) (v : ℕ) → capacity q ≤ length (contents q) → a.push q v ≡ none
  pub pop_empty : (q : Q) → contents q ≡ [] → a.pop q ≡ none
  pub pop_next :
      (q : Q) (v : ℕ) (vs : List ℕ)
      → contents q ≡ v ∷ vs
      → (q' : Q) × (a.pop q ≡ some (v, q')) × (contents q' ≡ vs) × (capacity q' ≡ capacity q)

-- `take` is the part of `wake` before the waker is called.
pub record AtomicWaker (W : Type 0) : Type 0 where
  pub register : W → ℕ → W
  pub take : W → Option ℕ × W

-- What `AtomicWaker` documents: a wake takes the waker that was registered last.
pub record IsAtomicWaker {W : Type 0} (w : AtomicWaker W) : Type 0 where
  pub take_registered : (s : W) (id : ℕ) → (w.take (w.register s id)).0 ≡ some id

-- `SCANCODE_QUEUE` and `WAKER`, and the tasks that have been woken, the last one first.
pub record Scancodes (Q W : Type 0) : Type 0 where
  pub queue : Option Q
  pub waker : W
  pub woken : List ℕ

abbrev pub scancode_capacity : ℕ
scancode_capacity = 100

abbrev pub noted : Option ℕ → List ℕ → List ℕ
noted none ids = ids
noted (some id) ids = id ∷ ids

module _ {Q W : Type 0} (a : ArrayQueue Q) (w : AtomicWaker W) where
  -- `try_init_once` leaves a queue that is there.
  unfoldable pub init_scancode_queue : Scancodes Q W → Scancodes Q W
  init_scancode_queue s = elim s.queue [
    | none ↦ record s { queue = some (a.empty scancode_capacity) }
    | some q ↦ s
  ]

  unfoldable pub wake : Scancodes Q W → Scancodes Q W
  wake s = record s { waker = (w.take s.waker).1; woken = noted (w.take s.waker).0 s.woken }

  -- The outcome of the push: woken if it was accepted, dropped if the queue was full.
  abbrev pub added : Option Q → Scancodes Q W → Scancodes Q W
  added none s = s
  added (some q) s = wake (record s { queue = some q })

  unfoldable pub add_scancode : Scancodes Q W → ℕ → Scancodes Q W
  add_scancode s scancode = elim s.queue [ none ↦ s | some q ↦ added (a.push q scancode) s ]

  -- `ScancodeStream::new`: its `try_init_once` cannot fail, as the queue is not there.
  unfoldable pub new_stream : Scancodes Q W → Scancodes Q W
  new_stream s = init_scancode_queue s

  abbrev pub polled : Option (ℕ × Q) → Scancodes Q W → Scancodes Q W × Option ℕ
  polled none s = (s, none)
  polled (some (v, q)) s = (record s { queue = some q }, some v)

  -- The pop of `poll_next`; `none` is `Pending`.
  abbrev pub pop_next : Scancodes Q W → Checked (Scancodes Q W × Option ℕ)
  pop_next s = elim s.queue [ none ↦ panic | some q ↦ ok (polled (a.pop q) s) ]

  -- `poll_next` in the task `id`; `between` is what interrupts do between the registration of the waker
  -- and the pop.
  unfoldable pub poll_next :
      (Scancodes Q W → Scancodes Q W) → Scancodes Q W → ℕ → Checked (Scancodes Q W × Option ℕ)
  poll_next between s id = elim s.queue [
    | none ↦ panic
    | some q ↦ pop_next (between (record s { waker = w.register s.waker id }))
  ]
