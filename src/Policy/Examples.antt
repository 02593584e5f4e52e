-- ===== src/Policy/Examples.antt =====
-- Policies that are composed, a counter and a rate limit, each at work once.
use aw.Base.{
  ℕ, ◌+◌, ◌/◌, ◌≤◌, ◌≡◌, refl, none, some, List, [], ◌∷◌, arith, ltb, nat_Eq, bytes_Eq, length, All,
  map,
}
use aw.Dht.Table.{is_some}
use aw.Sorting.Ordered.{contains}
use aw.Base.Int.{ℤ, pos, increment, decrement, ltb_ℤ}
use aw.Base.Maps.{lookup}
use aw.Policy.{codes, Allow, all, max, max_locked, Limiter, Rates, rate_limit_init}
use aw.Policy.Compose.{undo, IsReversible, all-IsReversible}
use aw.Policy.Limits.{
  Server, MaxStep, start, later, enters, max-IsReversible, MaxReach-Counts, rate_limits,
  rate_limits-bounded, rate_limits_grow, clean_up, leaves,
}

abbrev refuse_all : Allow ℕ ℤ
refuse_all conn conns = record { error = some (codes "no"); cleanup = none; state = conns }

abbrev policies : List (Allow ℕ ℤ)
policies = max (pos 1) ∷ refuse_all ∷ []

policies-IsReversible : All IsReversible policies
policies-IsReversible = (max-IsReversible (pos 1), (λ conn conns. refl, tt))

all-IsReversible_example : undo (all policies 5 (pos 0)) ≡ pos 0
all-IsReversible_example = all-IsReversible policies policies-IsReversible 5 (pos 0)

abbrev one_alive : Server
one_alive = record { conns = pos 1; alive = some decrement ∷ [] }

abbrev none_alive : Server
none_alive = record { conns = pos 0; alive = [] }

first_step : MaxStep (pos 2) none_alive one_alive
unfolding max_locked ltb_ℤ increment
first_step = enters refl refl

last_step : MaxStep (pos 2) one_alive none_alive
unfolding clean_up decrement
last_step = leaves [] [] (some decrement) refl refl

MaxReach-Counts_example :
    (none_alive.conns ≡ pos (length none_alive.alive)) × (length none_alive.alive ≤ 2)
MaxReach-Counts_example = MaxReach-Counts 2 (later (later start first_step) last_step)

-- Each address may connect three times.
abbrev three_times : Limiter
three_times = record { State = ℕ; fresh = 0; allow = λ n now. (ltb n 3, n + 1) }

abbrev attempts : List (List ℕ × ℕ)
attempts = (1 ∷ [], 7) ∷ (2 ∷ [], 8) ∷ (1 ∷ [], 9) ∷ []

abbrev limited : ℕ → Rates three_times
limited cap = rate_limits three_times attempts (rate_limit_init three_times cap)

rate_limits-bounded_example : (length (limited 2).front ≤ 2 / 2) × (length (limited 2).back ≤ 2 / 2)
rate_limits-bounded_example = rate_limits-bounded three_times 2 attempts (omega arith)

rate_limits_grow_example :
    is_some (lookup (2 ∷ []) (limited 1).front) ≡ contains (2 ∷ []) (map (λ x. x.0) attempts)
rate_limits_grow_example = rate_limits_grow three_times 1 attempts (2 ∷ []) (omega arith)
