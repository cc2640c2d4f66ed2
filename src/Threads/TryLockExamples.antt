-- ===== src/Threads/TryLockExamples.antt =====
-- Witnesses for the consumer of try_lock_std.cpp.
use build_your_own_stuff.Prelude.{◌<◌, ◌≡◌, refl, List, [], ◌∷◌, ◌++◌, arith}
use build_your_own_stuff.Threads.TryLock.{
  Counters, Turn, increment_x, increment_y, consume, consume_xy, increment, turn, turns, start,
  turns-finished, consumer-starved,
}

abbrev one_each : List Turn
one_each = increment_x ∷ increment_y ∷ consume ∷ []

abbrev five_each : List Turn
five_each = one_each ++ (one_each ++ (one_each ++ (one_each ++ one_each)))

five_each-uses : (turns five_each start).use_count ≡ 0
unfolding turns turn consume_xy increment start
five_each-uses = refl

turns-finished_test :
    ((turns five_each start).x ≡ 0)
    × ((turns five_each start).y ≡ 0)
    × ((turns five_each start).x_plus_y ≡ 10)
turns-finished_test = turns-finished five_each five_each-uses

-- Two counts of X are used up at once.
abbrev two_at_once : Counters
two_at_once = record { x = 0; y = 0; x_left = 3; y_left = 4; use_count = 4; x_plus_y = 3 }

two_at_once-reached :
    turns (increment_x ∷ increment_x ∷ increment_y ∷ consume ∷ []) start ≡ two_at_once
unfolding turns turn consume_xy increment start
two_at_once-reached = refl

consumer-starved_example : 0 < (turns (five_each ++ five_each) two_at_once).use_count
consumer-starved_example = consumer-starved (five_each ++ five_each) two_at_once (omega arith)
