-- ===== src/Tests/Typing.antt =====
-- The stream of scancodes and the executor over a list as the queue.
use molt_os.Prelude.{
  ◌+◌, ◌-◌, ◌==◌, ℕ, ◌≡◌, refl, ap, true, false, Option, none, some, List, [], ◌∷◌, ◌++◌, length,
  ltb, if◌then◌else◌, ok, arith,
}
use molt_os.Task.Keyboard.{
  ArrayQueue, IsArrayQueue, AtomicWaker, IsAtomicWaker, Scancodes, poll_next, init_scancode_queue,
}
use molt_os.Task.Keyboard.Stream.{add_all, drain, drain-add_all}
use molt_os.Task.Keyboard.Pending.{Polled, pending_woken}
use molt_os.Task.Sleep
use molt_os.Task.Sleep.{Sleep}
use molt_os.Task.Executor.{Future, Executor, World, run_once, run_at, get, remove, update}
use molt_os.Task.Executor.Asleep.{sleeping, Parked, run_at-wakes}
use molt_os.Task.Sleep.Waking.{due, waiting}
use molt_os.Task.Executor.Drained.{polled, poll_once}
use molt_os.Task.Executor.Passes.{run_once-polls}

abbrev pop_list : ℕ → List ℕ → Option (ℕ × (List ℕ × ℕ))
pop_list n [] = none
pop_list n (v ∷ vs) = some (v, (vs, n))

-- The contents with the capacity.
abbrev pub list_queue : ArrayQueue (List ℕ × ℕ)
list_queue = record {
  empty = λ n. ([], n);
  push = λ q v. if ltb (length q.0) q.1 then some (q.0 ++ (v ∷ []), q.1) else none;
  pop = λ q. pop_list q.1 q.0;
}

pub list_queue-IsArrayQueue : IsArrayQueue list_queue
list_queue-IsArrayQueue = record {
  contents = λ q. q.0;
  capacity = λ q. q.1;
  empty_contents = λ n. refl;
  empty_capacity = λ n. refl;
  push_room = λ q v h.
      let room : ltb (length q.0) q.1 ≡ true = ground (arith, h) in
      ((q.0 ++ (v ∷ []), q.1), rw room, refl, refl);
  push_full = λ q v h. let full : ltb (length q.0) q.1 ≡ false = ground (arith, h) in rw full;
  pop_empty = λ q h. ap (pop_list q.1) h;
  pop_next = λ q v vs h. ((vs, q.1), ap (pop_list q.1) h, refl, refl);
}

abbrev pub cell : AtomicWaker (Option ℕ)
cell = record { register = λ w id. some id; take = λ w. (w, none) }

cell-IsAtomicWaker : IsAtomicWaker cell
cell-IsAtomicWaker = record { take_registered = λ w id. refl }

abbrev silent : Option (List ℕ × ℕ) → Scancodes (List ℕ × ℕ) (Option ℕ)
silent queue = record { queue = queue; waker = none; woken = [] }

drain-add_all_example :
    drain list_queue cell 4
      (add_all list_queue cell
        (init_scancode_queue list_queue cell (silent none))
        (30 ∷ 158 ∷ 48 ∷ []))
      7
    ≡ ok (30 ∷ 158 ∷ 48 ∷ [])
drain-add_all_example =
    drain-add_all list_queue cell list_queue-IsArrayQueue (silent none) (30 ∷ 158 ∷ 48 ∷ []) 7 refl
      (omega arith)

-- Two scancodes come between the two steps of the poll.
pending_woken_example :
    (s' : Scancodes (List ℕ × ℕ) (Option ℕ)) × (o : Option ℕ) × (poll_next list_queue cell
        (λ t. add_all list_queue cell t (30 ∷ 158 ∷ []))
        (silent (some ([], 100)))
        7
      ≡ ok (s', o))
    × Polled list_queue cell list_queue-IsArrayQueue
        (silent (some ([], 100)))
        ([], 100)
        7
        (30 ∷ 158 ∷ [])
        s'
        o
unfolding list_queue-IsArrayQueue
pending_woken_example =
    pending_woken list_queue cell list_queue-IsArrayQueue cell-IsAtomicWaker
      (silent (some ([], 100))) ([], 100) 7 (30 ∷ 158 ∷ []) refl (omega arith)

-- Sleeper 1 is due at tick 20, sleeper 2 later.
abbrev halfway : World ℕ
halfway = record { sleepers = (30, 2) ∷ (20, 1) ∷ []; clock = 20; other = 0 }

-- A future that is ready after as many polls as its number; the polls are counted.
abbrev counted : Future ℕ (World ℕ)
counted = record { poll = λ n id w. (n - 1, n == 0, [], record w { other = w.other + 1 }) }

-- Task 2 is queued, task 9 is gone.
abbrev partly_asleep : Executor ℕ (List ℕ × ℕ)
partly_asleep = record {
  tasks = (2, 5) ∷ (1, 0) ∷ [];
  task_queue = (9 ∷ 2 ∷ [], 100);
  waker_cache = [];
}

run_once-polls_example :
    (e' : Executor ℕ (List ℕ × ℕ)) × (w' : World ℕ) × (run_once list_queue counted 7 partly_asleep
        halfway
      ≡ ok (e', w', true, true))
    × (list_queue-IsArrayQueue.contents e'.task_queue ≡ [])
    × (list_queue-IsArrayQueue.capacity e'.task_queue ≡ 100)
    × ◌≡◌ {A = List (ℕ × ℕ) × World ℕ}
        (e'.tasks, w')
        ((2, 4) ∷ [], record { sleepers = (30, 2) ∷ []; clock = 20; other = 2 })
unfolding list_queue-IsArrayQueue polled poll_once get remove update due waiting
run_once-polls_example =
    run_once-polls list_queue counted list_queue-IsArrayQueue (λ n id env. refl) (9 ∷ 2 ∷ []) 7
      partly_asleep halfway refl (omega arith) (omega arith)

-- A task that was spawned to sleep until tick 207.
abbrev sleeper : Sleep
sleeper = Sleep.new 7 200

abbrev asleep : Executor Sleep (List ℕ × ℕ)
asleep = record { tasks = (1, sleeper) ∷ []; task_queue = (1 ∷ [], 100); waker_cache = [] }

abbrev world : World Unit
world = record { sleepers = []; clock = 7; other = tt }

run_at-wakes_example :
    (e' : Executor Sleep (List ℕ × ℕ)) × (w' : World Unit) × (run_at list_queue sleeping 2
        (7 ∷ 8 ∷ 206 ∷ [])
        asleep
        world
      ≡ ok (e', w'))
    × Parked list_queue list_queue-IsArrayQueue 1 sleeper e' w'
    × (e'' : Executor Sleep (List ℕ × ℕ)) × (w'' : World Unit) × (run_once list_queue sleeping 2 e'
          (record w' { clock = 208 })
        ≡ ok (e'', w'', true, true))
    × (e''.tasks ≡ [])
    × (w''.sleepers ≡ [])
unfolding list_queue-IsArrayQueue
run_at-wakes_example =
    run_at-wakes list_queue list_queue-IsArrayQueue 1 sleeper 2 7 208 (8 ∷ 206 ∷ []) asleep world
      refl refl (omega arith) refl refl (omega arith) (omega arith) (omega arith)
