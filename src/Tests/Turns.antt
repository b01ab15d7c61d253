-- ===== src/Tests/Turns.antt =====
-- A turn on a board of eight free cells in a row.
use russian_ai_cup.Base.{
  ℕ, zero, suc, ◌+◌, ◌<◌, ◌≡◌, refl, pos, pos_part, ◌+ℤ◌, ◌-ℤ◌, abs, true, false, [], ◌∷◌, Member,
  here, there, some, none, replicate, leb, ◌||◌, ◌==◌, arith,
}
use russian_ai_cup.Model.Double.{Fpu}
use russian_ai_cup.Model.Move.{lower_stance}
use russian_ai_cup.Model.Trooper.{Trooper, kneeling}
use russian_ai_cup.Model.World.{World, Cells, free, low_cover}
use russian_ai_cup.Strategy.Point.{point_of, is_correct, neighs, push_if, has_neigh}
use russian_ai_cup.Strategy.Floyd.{inf, is_free, cell_at}
use russian_ai_cup.Strategy.Turn.{Turn, make_action}
use russian_ai_cup.Strategy.Score.{collect}
use russian_ai_cup.Strategy.Expand.{
  Candidate, call, candidates, medikit_calls, grenade_calls, medic_calls, shoot_calls, move_calls,
  stance_calls, ration_calls, with_points, heal_calls, for_each, heal_call,
}
use russian_ai_cup.Strategy.Search.Plans.{rest}
use russian_ai_cup.Strategy.Search.Legal.{IsSafe, IsGood}
use russian_ai_cup.Strategy.Search.Legal.Calls.{candidates-IsGood}
use russian_ai_cup.Strategy.Search.Returns.{Plan-IsSafe}
use russian_ai_cup.Strategy.Turns.{
  Library, Globals, begin_turn, cover_all, troopers_of, pick_target, reset_target, is_stale, start,
  turn_of,
}
use russian_ai_cup.Strategy.Turns.Target.{
  drawn, SameBoard, pick_target-first, pick_target-never, pick_target-keeps,
}
use russian_ai_cup.Strategy.Turns.Stances.{is_shooting-later}
use russian_ai_cup.Strategy.Score.{is_shooting}
use russian_ai_cup.Strategy.Point.{distance_to}
use russian_ai_cup.Strategy.Turns.Orders.{seen}
use russian_ai_cup.Tests.Samples.{rules, sniper_at}

-- A generator that counts up, and a processor that finds every distance small.
abbrev pub counter : Library ℕ
counter = record { srand = λ seed. seed; rand = λ n. (n, n + 1); x_first = true }

abbrev pub easy : Fpu
easy = record { of_int = pos_part; mul = λ a b. 0; sqrt = λ a. a; le = λ a b. true }

abbrev pub row : World
row = record {
  move_index = pos 1;
  width = pos 8;
  height = pos 1;
  players = [];
  troopers = sniper_at (pos 0) (pos 0) ∷ [];
  bonuses = [];
  cells = replicate 8 (free ∷ []);
  cell_visibilities = replicate 192 true;
}

abbrev pub covered_row : Cells
covered_row = (low_cover ∷ []) ∷ replicate 7 (free ∷ [])

-- The globals after the first turn, with the target at the end of the row.
abbrev pub second_turn : Globals ℕ
second_turn = record {
  size_x = pos 8;
  size_y = pos 1;
  target = record { x = pos 7; y = pos 0 };
  move_index = pos 0;
  floyd_dist = λ a b. abs (a.x -ℤ b.x);
  rng = 3;
}

abbrev pub second_globals : Globals ℕ
second_globals = record second_turn { move_index = pos 1 }

abbrev pub sniper_here : Trooper
sniper_here = sniper_at (pos 0) (pos 0)

abbrev pub view : Turn
view =
    seen counter easy 5 sniper_here row rules second_turn second_globals covered_row sniper_here []

pub row-covered : cover_all row.cells row.troopers ≡ some covered_row
unfolding cover_all
row-covered = refl

pub row-on_board :
    is_correct
      (begin_turn counter row second_turn).1.size_x
      (begin_turn counter row second_turn).1.size_y
      (point_of sniper_here.unit)
    ≡ true
unfolding begin_turn is_correct ◌+ℤ◌
row-on_board = refl

pub row-picked :
    pick_target counter 5
      (point_of sniper_here.unit)
      (reset_target counter (point_of sniper_here.unit) (begin_turn counter row second_turn).1)
    ≡ some second_globals
unfolding pick_target reset_target begin_turn is_stale ◌+ℤ◌ ◌-ℤ◌
row-picked = refl

pub row-team : troopers_of true row.troopers ≡ sniper_here ∷ []
unfolding troopers_of
row-team = refl

-- The start of the search, on the board and standing.
pub start-here : IsSafe view (start sniper_here)
unfolding start is_correct
start-here = record { named = refl; on_board = refl }

Plan-IsSafe_example : IsSafe view (collect view (start sniper_here))
Plan-IsSafe_example =
    Plan-IsSafe view 0 (pos 10) (start sniper_here) (collect view (start sniper_here)) start-here
      (rest refl)

-- With two points left and standing at the west end: one step east, or kneel.
abbrev pub lower : Candidate
lower = call (make_action lower_stance) (pos 0) (record (start sniper_here) { stance = kneeling })

pub lower-Member : Member lower (candidates view (pos 2) (start sniper_here))
unfolding candidates medikit_calls grenade_calls medic_calls shoot_calls move_calls stance_calls
    ration_calls with_points heal_calls for_each heal_call neighs push_if has_neigh is_correct
    is_free cell_at start ◌-ℤ◌ ◌+ℤ◌ troopers_of
lower-Member = there (there here)

candidates-IsGood_example : IsGood view (pos 2) (start sniper_here) lower
candidates-IsGood_example =
    candidates-IsGood view (pos 2) (start sniper_here) start-here lower lower-Member

-- A target in the trooper's own cell is stale; the generator's next one is at (3, 0), the one after
-- that at (5, 0), and then (7, 0).
abbrev lost : Globals ℕ
lost = record second_turn { target = record { x = pos 0; y = pos 0 } }

lost_until :
    (m : ℕ)
    → m < 3
    → (leb (lost.floyd_dist (point_of sniper_here.unit) (drawn counter lost m)) 5
        || lost.floyd_dist (point_of sniper_here.unit) (drawn counter lost m) == inf)
      ≡ true
unfolding ◌-ℤ◌
lost_until zero h = refl
lost_until (suc zero) h = refl
lost_until (suc (suc zero)) h = refl
lost_until (suc (suc (suc m))) h = absurd (omega arith)

found :
    (leb (lost.floyd_dist (point_of sniper_here.unit) (drawn counter lost 3)) 5
      || lost.floyd_dist (point_of sniper_here.unit) (drawn counter lost 3) == inf)
    ≡ false
unfolding ◌-ℤ◌
found = refl

lost-on_board : is_correct lost.size_x lost.size_y (point_of sniper_here.unit) ≡ true
unfolding is_correct
lost-on_board = refl

lost-target : is_correct lost.size_x lost.size_y lost.target ≡ true
unfolding is_correct
lost-target = refl

pick_target-first_example :
    pick_target counter 5 (point_of sniper_here.unit) lost
    ≡ some (record lost { target = record { x = pos 7; y = pos 0 }; rng = 9 })
pick_target-first_example =
    pick_target-first counter (point_of sniper_here.unit) 3 5 lost lost-on_board lost-target
      lost_until found (omega arith)

-- Where no distance is above 1.
abbrev cramped : Globals ℕ
cramped = record second_turn { floyd_dist = λ a b. 1 }

pick_target-never_example : pick_target counter 100 (point_of sniper_here.unit) cramped ≡ none
pick_target-never_example =
    pick_target-never counter (point_of sniper_here.unit) 100 cramped (λ q. refl)

settled : pick_target counter 0 (point_of sniper_here.unit) second_globals ≡ some second_globals
unfolding pick_target is_stale ◌-ℤ◌
settled = refl

pick_target-keeps_example :
    SameBoard counter (point_of sniper_here.unit) second_globals second_globals
    × (is_stale counter second_globals (point_of sniper_here.unit) ≡ false)
pick_target-keeps_example =
    pick_target-keeps counter (point_of sniper_here.unit) 0 second_globals second_globals settled

-- At the second turn, an enemy at the other end of the row.
is_shooting-later_example :
    is_shooting
      (turn_of easy sniper_here row rules
        (begin_turn counter row second_turn).0
        covered_row
        second_globals)
      (start sniper_here)
      (sniper_at (pos 7) (pos 0))
    ≡ easy.le
        (distance_to easy (point_of sniper_here.unit) (record { x = pos 7; y = pos 0 }))
        rules.grenade_throw_range
unfolding start
is_shooting-later_example =
    is_shooting-later counter easy sniper_here row rules covered_row second_turn second_globals 0
      (start sniper_here) (sniper_at (pos 7) (pos 0)) refl
