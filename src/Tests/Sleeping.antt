-- ===== src/Tests/Sleeping.antt =====
-- Sleeping tasks at concrete inputs.
use molt_os.Prelude.{◌≡◌, refl, List, [], ◌∷◌}
use molt_os.Task.Sleep.{Sleeper, remove, wake_loop, wake_sleepers}
use molt_os.Task.Sleep.Waking.{due, waiting, wake_sleepers-partition}

abbrev asleep : List Sleeper
asleep = (10, 1) ∷ (30, 2) ∷ (20, 3) ∷ []

wakes_two : wake_sleepers 20 asleep ≡ ((30, 2) ∷ [], 1 ∷ 3 ∷ [])
unfolding wake_sleepers wake_loop remove
wakes_two = refl

wake_sleepers-partition_example : wake_sleepers 20 asleep ≡ (waiting 20 asleep, due 20 asleep)
wake_sleepers-partition_example = wake_sleepers-partition 20 asleep
