-- ===== src/Neat/Mutation/Weights.antt =====
-- How far the weights of proyecto/NEAT/src/NEAT.cpp move.
use tareas_elo.Common.{true, ℕ, ◌-◌, ◌*◌, ◌%◌, ◌^◌, ◌<◌, ◌≡◌, if◌then◌else◌, ltb, arith}
use tareas_elo.Common.Int.{pos, negsuc, pos_part, i32}
use tareas_elo.Neat.Population.{rand_max}
use tareas_elo.Neat.Mutation.{doubled_draw, weight_delta}
use tareas_elo.Common.Doubles.{Doubles, OrderLaws}

-- Twice the draw modulo `RAND_MAX` is kept below 2 ^ 30 and is 2 ^ 32 less from there on: it is
-- always below `RAND_MAX`.
doubled_draw-below :
    (r : ℕ)
    → (doubled_draw r ≡ (
        if ltb (r % rand_max) (2 ^ 30)
        then pos (2 * (r % rand_max))
        else negsuc (2 ^ 32 - 1 - 2 * (r % rand_max))))
      × (pos_part (doubled_draw r) < rand_max)
unfolding doubled_draw i32
doubled_draw-below r = ground arith

-- Where doubles are ordered as in IEEE 754, whatever `rand` returns: its double, as an int, wraps from
-- 2 ^ 30 on, and the delta of a weight that is made of it is negative.
pub weight_delta-negative :
    (d : Doubles)
    → OrderLaws d
    → (r : ℕ)
    → (doubled_draw r ≡ (
        if ltb (r % rand_max) (2 ^ 30)
        then pos (2 * (r % rand_max))
        else negsuc (2 ^ 32 - 1 - 2 * (r % rand_max))))
      × (d.lt (weight_delta d r) (d.of_int (pos 0)) ≡ true)
weight_delta-negative d laws r =
    let (wrapped, below) = doubled_draw-below r in
    (wrapped, laws.below_zero _ _ (laws.below_one (doubled_draw r) rand_max below (omega arith)))
