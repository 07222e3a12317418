-- ===== src/Task/Sleep/Waking.antt =====
-- sleep.rs: who is woken.
use molt_os.Prelude.{
  append-nil, snoc-append, ℕ, suc, ◌≤◌, ◌<◌, ◌≡◌, refl, ap, ap₂, sym, ◌∙◌, true, false, some, List,
  [], ◌∷◌, ◌++◌, leb, le→leb, if◌then◌else◌, length, get_elem?, arith, Bool-cases, inl, inr,
}
use molt_os.Task.Sleep.{Sleeper, remove, wake_loop, wake_sleepers, Sleep, poll}

-- The wakers whose tick has come, and the sleepers whose tick has not.
unfoldable pub due : ℕ → List Sleeper → List ℕ
due now [] = []
due now (s ∷ ss) = let rest = due now ss in if leb s.0 now then s.1 ∷ rest else rest

unfoldable pub waiting : ℕ → List Sleeper → List Sleeper
waiting now [] = []
waiting now (s ∷ ss) = let rest = waiting now ss in if leb s.0 now then rest else s ∷ rest

module _ {A : Type 0} where
  length-snoc : (xs : List A) (x : A) → length (xs ++ (x ∷ [])) ≡ suc (length xs)
  length-snoc [] x = refl
  length-snoc (z ∷ xs) x = ap suc (length-snoc xs x)

  get_elem?-append :
      (xs : List A) (y : A) (ys : List A) → get_elem? (xs ++ (y ∷ ys)) (length xs) ≡ some y
  get_elem?-append [] y ys = refl
  get_elem?-append (x ∷ xs) y ys = get_elem?-append xs y ys

remove-append :
    (xs : List Sleeper) (y : Sleeper) (ys : List Sleeper)
    → remove (xs ++ (y ∷ ys)) (length xs) ≡ xs ++ ys
unfolding remove
remove-append [] y ys = refl
remove-append (x ∷ xs) y ys = ap (λ l. x ∷ l) (remove-append xs y ys)

wake_loop-append :
    (rest passed : List Sleeper) (now : ℕ) (woken : List ℕ)
    → wake_loop (length rest) now (length passed) (passed ++ rest) woken
      ≡ (passed ++ waiting now rest, woken ++ due now rest)
unfolding wake_loop waiting due
wake_loop-append [] passed now woken = ap (λ w. (passed ++ [], w)) (sym (append-nil woken))
wake_loop-append (s ∷ rest) passed now woken = elim (Bool-cases (leb s.0 now)) [
  | inl t ↦
      rw (wake_loop, get_elem?-append passed s rest, t, remove-append passed s rest)
        (wake_loop-append rest passed now (woken ++ (s.1 ∷ []))
          ∙ ap (λ w. (passed ++ waiting now rest, w)) (snoc-append woken s.1 (due now rest)))
  | inr t ↦
      rw (wake_loop, get_elem?-append passed s rest, t)
        (ap₂ (λ i l. wake_loop (length rest) now i l woken) (sym (length-snoc passed s))
            (sym (snoc-append passed s rest))
          ∙ wake_loop-append rest (passed ++ (s ∷ [])) now woken
          ∙ ap (λ l. (l, woken ++ due now rest)) (snoc-append passed s (waiting now rest)))
]

-- The loop, which removes while it goes, wakes exactly the sleepers whose tick has come, in order, and
-- leaves the others in order; as many turns as there are sleepers are enough.
pub wake_sleepers-partition :
    (now : ℕ) (sleepers : List Sleeper)
    → wake_sleepers now sleepers ≡ (waiting now sleepers, due now sleepers)
unfolding wake_sleepers
wake_sleepers-partition now sleepers = wake_loop-append sleepers [] now []

due-snoc :
    (now : ℕ) (ss : List Sleeper) (s : Sleeper)
    → leb s.0 now ≡ true
    → due now (ss ++ (s ∷ [])) ≡ due now ss ++ (s.1 ∷ [])
unfolding due
due-snoc now [] s h = rw h refl
due-snoc now (x ∷ ss) s h = elim (Bool-cases (leb x.0 now)) [
  | inl t ↦ rw t (ap (λ l. x.1 ∷ l) (due-snoc now ss s h))
  | inr t ↦ rw t (due-snoc now ss s h)
]

-- A sleep that is polled for the first time before its tick is not lost: once the tick has come the
-- next `wake_sleepers` wakes its task, last, and the poll that follows is ready.
poll-wakes :
    (s : Sleep) (now later waker : ℕ) (sleepers others : List Sleeper)
    → s.registered ≡ false
    → now < s.target_tick
    → s.target_tick ≤ later
    → ((poll s now waker sleepers).2 ≡ false)
      × ((wake_sleepers later (poll s now waker sleepers).1).1 ≡ due later sleepers ++ (waker ∷ []))
      × ((poll (poll s now waker sleepers).0 later waker others).2 ≡ true)
unfolding poll
poll-wakes s now later waker sleepers others fresh early come =
    let not_yet : leb s.target_tick now ≡ false = ground arith in
    let ready : leb s.target_tick later ≡ true = le→leb s.target_tick later come in
    rw (not_yet, fresh, ready)
      (
        refl,
        ap (λ p. p.1) (wake_sleepers-partition later (sleepers ++ ((s.target_tick, waker) ∷ [])))
            ∙ due-snoc later sleepers (s.target_tick, waker) ready,
        refl,
      )
