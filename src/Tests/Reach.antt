-- ===== src/Tests/Reach.antt =====
-- The target at the end of a row of free cells, with the table of `floyd`, and what the numbers of
-- the strategy and of World::isVisible are there.
use russian_ai_cup.Base.{
  true, false, if◌then◌else◌, ◌≤ℤ◌, ℕ, ◌≤◌, ◌<◌, ◌≡◌, ◌≢◌, refl, pos, ◌-ℤ◌, ◌+ℤ◌, [], ◌∷◌, some,
  none, replicate, Member, here, there, length, arith,
}
use russian_ai_cup.Model.World.{Cells, free}
use russian_ai_cup.Model.World.Visible.{visibility_index-injective}
use russian_ai_cup.Strategy.Point.{Point, point_of, push_if, neighs}
use russian_ai_cup.Strategy.Floyd.{inf, is_free, free_points, floyd}
use russian_ai_cup.Strategy.Floyd.Shortest.{FreeWalk}
use russian_ai_cup.Strategy.Turn.{Turn, State, make_action}
use russian_ai_cup.Strategy.Score.{score, collect}
use russian_ai_cup.Strategy.Score.Machine.{machine_score}
use russian_ai_cup.Strategy.Expand.{
  candidates, medikit_calls, grenade_calls, medic_calls, shoot_calls, move_calls, stance_calls,
  ration_calls,
}
use russian_ai_cup.Strategy.Search.Budget.{IsFrugal}
use russian_ai_cup.Strategy.Search.Spending.{plan_cost, Plan-cost}
use russian_ai_cup.Strategy.Search.Bounds.{IsTame}
use russian_ai_cup.Strategy.Search.Plans.{Plan, rest, act}
use russian_ai_cup.Strategy.Turns.Sums.{IsReached, Plan-machine_score}
use russian_ai_cup.Model.Trooper.{Trooper, kneeling}
use russian_ai_cup.Model.Move.{lower_stance}
use russian_ai_cup.Strategy.Score.Overflow.{machine_score-none}
use russian_ai_cup.Strategy.Turns.{Globals, is_stale, begin_turn, pick_target, start, troopers_of}
use russian_ai_cup.Strategy.Turns.Reach.{pick_target-reachable}
use russian_ai_cup.Tests.Samples.{sniper_at}
use russian_ai_cup.Tests.Turns.{counter, second_turn, sniper_here, view, lower-Member}

abbrev cells : Cells
cells = replicate 7 (free ∷ [])

abbrev west : Point
west = record { x = pos 0; y = pos 0 }

abbrev on_row : Globals ℕ
on_row = record second_turn {
  size_x = pos 7;
  target = record { x = pos 6; y = pos 0 };
  floyd_dist = floyd cells (pos 7) (pos 1);
}

kept_target : pick_target counter 0 west on_row ≡ some on_row
unfolding pick_target is_stale floyd is_free neighs push_if ◌-ℤ◌ ◌+ℤ◌
kept_target = refl

pick_target-reachable_example :
    (n : ℕ) × FreeWalk cells (pos 7) (pos 1) west on_row.target n
    × (5 < n)
    × ((m : ℕ) → FreeWalk cells (pos 7) (pos 1) west on_row.target m → m < inf → n ≤ m)
pick_target-reachable_example =
    pick_target-reachable counter cells (pos 7) (pos 1) west 0 on_row on_row refl kept_target

visibility_index-injective_example :
    ◌≡◌ {A = ℕ} 4 4 × ◌≡◌ {A = ℕ} 5 5 × ◌≡◌ {A = ℕ} 6 6 × ◌≡◌ {A = ℕ} 7 7 × ◌≡◌ {A = ℕ} 2 2
visibility_index-injective_example =
    visibility_index-injective 30 20 4 5 6 7 2 4 5 6 7 2 (omega arith) (omega arith) (omega arith)
      (omega arith) (omega arith) (omega arith) (omega arith) (omega arith) refl

-- The sniper kneels on the row, with the table of `floyd`; nobody else is there, and the target is six
-- cells away.
abbrev on_table : Turn
on_table = record view { target = on_row.target; floyd_dist = floyd cells (pos 7) (pos 1) }

false_not_true : false ≡ true → ⊥
false_not_true e = cc

on_table-IsTame : IsTame on_table
unfolding troopers_of
on_table-IsTame = record {
  enemies = omega arith;
  teammates = omega arith;
  direct = omega arith;
  collateral = omega arith;
  medikit = omega arith;
  medikit_self = omega arith;
  medic = omega arith;
  medic_self = omega arith;
  prone_damage = omega arith;
  kneeling_damage = omega arith;
  standing_damage = omega arith;
}

abbrev kneels : State
kneels = record (start sniper_here) { stance = kneeling }

nothing_there : collect on_table (start sniper_here) ≡ start sniper_here
unfolding collect
nothing_there = refl

kneels-Plan : Plan on_table 10 (pos 2) (start sniper_here) (collect on_table kneels)
unfolding candidates medikit_calls grenade_calls medic_calls shoot_calls move_calls stance_calls
    ration_calls start troopers_of begin_turn floyd is_free ◌-ℤ◌
kneels-Plan =
    act {points' = pos 0} {s' = kneels} {a = make_action lower_stance}
      (rw nothing_there lower-Member) (rest refl)

near_mates :
    (mate : Trooper)
    → Member mate (sniper_here ∷ [])
    → on_table.floyd_dist (collect on_table kneels).pos (point_of mate.unit) ≢ inf
unfolding collect start floyd is_free neighs push_if ◌-ℤ◌ ◌+ℤ◌ troopers_of
near_mates _ here e = omega (arith, e)
near_mates _ (there m) e = elim m [ ]

few_cells : length (free_points cells (pos 7) (pos 1)) < 500_000
unfolding free_points is_free
few_cells = omega arith

kneels-IsReached : IsReached on_table (collect on_table kneels)
unfolding collect start floyd is_free neighs push_if ◌-ℤ◌ ◌+ℤ◌ troopers_of
kneels-IsReached = record { target = omega arith; mates = near_mates }

one_in_team : 0 < length on_table.teammates
unfolding troopers_of
one_in_team = omega arith

Plan-machine_score_example :
    machine_score on_table (collect on_table kneels)
    ≡ some (score on_table (collect on_table kneels))
Plan-machine_score_example =
    Plan-machine_score on_table cells (pos 7) (pos 1) (pos 2) (collect on_table kneels)
      on_table-IsTame one_in_team refl few_cells kneels-Plan kneels-IsReached

-- At the start of a turn no ration has been eaten.
start-IsFrugal : IsFrugal (start sniper_here)
unfolding start
start-IsFrugal e = absurd (false_not_true e)

Plan-cost_example : plan_cost on_table kneels-Plan ≤ℤ (
    pos 2
    +ℤ (if (start sniper_here).used_field_ration
        then pos 0
        else on_table.game.field_ration_bonus_action_points))
Plan-cost_example = Plan-cost on_table kneels-Plan start-IsFrugal (omega arith) (omega arith)

-- A turn with a teammate that cannot be reached.
abbrev apart : Turn
apart = record view { teammates = sniper_at (pos 7) (pos 0) ∷ []; floyd_dist = λ a b. inf }

machine_score-none_example : machine_score apart (start sniper_here) ≡ none
machine_score-none_example =
    machine_score-none apart (start sniper_here) (sniper_at (pos 7) (pos 0)) here refl
