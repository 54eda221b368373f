-- ===== src/Tests/Timers.antt =====
-- The timer heap and the estimator at concrete inputs.
use udp_arq_lab.Prelude.{ℕ, ◌≡◌, refl, false, Option, none, some, List, [], ◌∷◌, ltb}
use udp_arq_lab.Prelude.Dict.{nat_eq_inst, get}
use udp_arq_lab.Prelude.Float.{min_f}
use udp_arq_lab.Prelude.Result.{ok}
use udp_arq_lab.TimerHeap.{TimerHeap, empty, schedule, nearest, pop_due}
use udp_arq_lab.TimerHeap.Spec.{IsWellFormed, schedule-IsWellFormed}
use udp_arq_lab.TimerHeap.Spec.PopDue.{PopsDue, pop_due-PopsDue}
use udp_arq_lab.TimerHeap.Spec.Nearest.{IsNearest, nearest-IsNearest}
use udp_arq_lab.Rto
use udp_arq_lab.Rto.{RtoEstimator}
use udp_arq_lab.Rto.Bounds.{run_limits, timeouts, doubled, on_timeout-doubled, new-InLimits}
use udp_arq_lab.Tests.{units, units_order}

-- Key 3 is due at 50, key 4 at 20, and key 3 again at 90: one entry is stale.
abbrev timers : TimerHeap ℕ ℕ
timers = schedule (schedule (schedule empty 3 50) 4 20) 3 90

empty-IsWellFormed : IsWellFormed {T = ℕ} {K = ℕ} empty
unfolding get
empty-IsWellFormed = record { sorted = tt; covered = λ k t p. cc }

timers-IsWellFormed : IsWellFormed timers
timers-IsWellFormed = schedule-IsWellFormed units_order _ 3 90 (
    schedule-IsWellFormed units_order _ 4 20
      (schedule-IsWellFormed units_order empty 3 50 empty-IsWellFormed))

pop_due-PopsDue_example : PopsDue units_order timers 60 (pop_due timers 60).0 (pop_due timers 60).1
pop_due-PopsDue_example = pop_due-PopsDue units_order timers 60 timers-IsWellFormed

nearest-IsNearest_example : IsNearest units_order timers.key_to_deadline (nearest timers).1
nearest-IsNearest_example = nearest-IsNearest units_order timers timers-IsWellFormed

abbrev pub estimator : RtoEstimator ℕ
estimator = record { min_rto = 1000; max_rto = 50000; g = 500; smoothed = none; rto = 5000 }

estimator_new : Rto.new 5000 1000 50000 500 ≡ ok estimator
unfolding Rto.new
estimator_new = refl

abbrev events : List (Option ℕ)
events = some 2000 ∷ none ∷ none ∷ some 9000 ∷ none ∷ []

run_limits_example :
    (ltb (Rto.run estimator events).rto 1000 ≡ false)
    × (ltb 50000 (Rto.run estimator events).rto ≡ false)
run_limits_example = run_limits units_order 5000 1000 50000 500 estimator events estimator_new

-- The fourth doubling would pass 5 seconds.
on_timeout-doubled_example :
    (Rto.run estimator (timeouts 4)).rto ≡ min_f 50000 (doubled 4 estimator.rto)
on_timeout-doubled_example =
    on_timeout-doubled units_order 3 estimator
      (new-InLimits units_order 5000 1000 50000 500 estimator estimator_new)
