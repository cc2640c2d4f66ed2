-- ===== src/Threads/TryLock.antt =====
-- cpp/multi_threading/try_lock_std.cpp: two threads that count X and Y up, each under its own mutex, and
-- one that uses both up when std::try_lock gets both. What is done under a mutex is one step; a
-- try_lock that fails, or finds X or Y at 0, changes nothing, and is a step too.
use build_your_own_stuff.Prelude.{
  ℕ, zero, suc, ◌+◌, ◌-◌, ◌≤◌, ◌<◌, ◌≡◌, refl, List, [], ◌∷◌, arith, ◌==◌, if◌then◌else◌,
}

-- X, Y, the passes that incrementXY has still to make for each, and useCount and XplusY.
pub record Counters : Type 0 where
  pub x : ℕ
  pub y : ℕ
  pub x_left : ℕ
  pub y_left : ℕ
  pub use_count : ℕ
  pub x_plus_y : ℕ

pub data Turn : Type 0 where
  increment_x : Turn
  increment_y : Turn
  consume : Turn
  consume_fails : Turn

-- The pass of consumeXY with both mutexes, which ends its loop when useCount is 0.
unfoldable pub consume_xy : Counters → Counters
consume_xy c =
    if c.use_count == 0
    then c
    else if c.x == 0
    then c
    else if c.y == 0
    then c
    else record c { x = 0; y = 0; use_count = c.use_count - 1; x_plus_y = c.x_plus_y + (c.x + c.y) }

-- A pass of incrementXY, while there is one left.
unfoldable pub increment : ℕ → ℕ → ℕ × ℕ
increment n zero = (n, zero)
increment n (suc passes) = (suc n, passes)

unfoldable pub turn : Turn → Counters → Counters
unfolding consume_xy increment
turn increment_x c = record c {
  x = (increment c.x c.x_left).0;
  x_left = (increment c.x c.x_left).1;
}
turn increment_y c = record c {
  y = (increment c.y c.y_left).0;
  y_left = (increment c.y c.y_left).1;
}
turn consume c = consume_xy c
turn consume_fails c = c

unfoldable pub turns : List Turn → Counters → Counters
unfolding turn
turns [] c = c
turns (t ∷ ts) c = turns ts (turn t c)

-- main: 5 passes of each thread, and 5 uses
unfoldable pub start : Counters
start = record { x = 0; y = 0; x_left = 5; y_left = 5; use_count = 5; x_plus_y = 0 }

-- All that was counted is there, or was used; what is left of X is enough for no more than the uses
-- that have not been made, if every use took one.
pub record Inv (c : Counters) : Type 0 where
  pub kept : c.x_plus_y + (c.x + c.y) + (c.x_left + c.y_left) ≡ 10
  pub x_spare : c.x + c.x_left ≤ c.use_count
  pub y_spare : c.y + c.y_left ≤ c.use_count

increment-sum : (n passes : ℕ) → (increment n passes).0 + (increment n passes).1 ≡ n + passes
unfolding increment
increment-sum n zero = refl
increment-sum n (suc passes) = omega arith

consume_xy-Inv : (c : Counters) → Inv c → Inv (consume_xy c)
unfolding consume_xy
consume_xy-Inv c h = record { kept = ground arith; x_spare = ground arith; y_spare = ground arith }

turn-Inv : (t : Turn) (c : Counters) → Inv c → Inv (turn t c)
unfolding turn
turn-Inv increment_x c h = record {
  kept = omega (arith, h.kept, increment-sum c.x c.x_left);
  x_spare = omega (arith, h.x_spare, increment-sum c.x c.x_left);
  y_spare = h.y_spare;
}
turn-Inv increment_y c h = record {
  kept = omega (arith, h.kept, increment-sum c.y c.y_left);
  x_spare = h.x_spare;
  y_spare = omega (arith, h.y_spare, increment-sum c.y c.y_left);
}
turn-Inv consume c h = consume_xy-Inv c h
turn-Inv consume_fails c h = h

turns-Inv : (ts : List Turn) (c : Counters) → Inv c → Inv (turns ts c)
unfolding turns
turns-Inv [] c h = h
turns-Inv (t ∷ ts) c h = turns-Inv ts (turn t c) (turn-Inv t c h)

-- If the consumer ends, then every count was made and used: X and Y are 0 and XplusY is 10, whatever
-- the order of the turns was.
pub turns-finished :
    (ts : List Turn)
    → (turns ts start).use_count ≡ 0
    → ((turns ts start).x ≡ 0) × ((turns ts start).y ≡ 0) × ((turns ts start).x_plus_y ≡ 10)
unfolding start
turns-finished ts h =
    let inv =
      turns-Inv ts start
        (record { kept = omega arith; x_spare = omega arith; y_spare = omega arith }) in
    (
      omega (arith, inv.x_spare),
      omega (arith, inv.y_spare),
      omega (arith, inv.kept, inv.x_spare, inv.y_spare),
    )

-- Fewer counts of X are left than uses.
abbrev pub IsShort : Counters → Type 0
IsShort c = c.x + c.x_left < c.use_count

consume_xy-IsShort : (c : Counters) → IsShort c → IsShort (consume_xy c)
unfolding consume_xy
consume_xy-IsShort c h = ground arith

turn-IsShort : (t : Turn) (c : Counters) → IsShort c → IsShort (turn t c)
unfolding turn
turn-IsShort increment_x c h = omega (arith, increment-sum c.x c.x_left)
turn-IsShort increment_y c h = h
turn-IsShort consume c h = consume_xy-IsShort c h
turn-IsShort consume_fails c h = h

turns-IsShort : (ts : List Turn) (c : Counters) → IsShort c → IsShort (turns ts c)
unfolding turns
turns-IsShort [] c h = h
turns-IsShort (t ∷ ts) c h = turns-IsShort ts (turn t c) (turn-IsShort t c h)

-- Once fewer counts of X are there or to come than there are uses, the consumer loops for ever:
-- whatever turns follow, uses are left.
pub consumer-starved :
    (ts : List Turn) (c : Counters) → c.x + c.x_left < c.use_count → 0 < (turns ts c).use_count
consumer-starved ts c h = omega (arith, turns-IsShort ts c h)
