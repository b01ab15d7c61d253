-- ===== src/Tests/Game.antt =====
-- A whole game of two turns on a row of seven free cells, from the first turn.
use russian_ai_cup.Base.{
  ℕ, ◌≡◌, refl, pos, negsuc, ◌+ℤ◌, ◌-ℤ◌, true, some, List, [], ◌∷◌, ◌++◌, All, replicate, arith,
}
use russian_ai_cup.Model.World.{World, Cells, PlayerContext, free, low_cover}
use russian_ai_cup.Client.Messages.{game_over}
use russian_ai_cup.Client.Wire.World.{WorldFits, terrain_of}
use russian_ai_cup.Client.Wire.Terrain.{CellsFit, VisibilitiesFit}
use russian_ai_cup.Client.Wire.Messages.{print_player_context, print_terrain}
use russian_ai_cup.Client.Wire.GameContext.{print_type}
use russian_ai_cup.Strategy.Point.{point_of, is_correct, neighs, push_if}
use russian_ai_cup.Strategy.Floyd.{floyd, is_free}
use russian_ai_cup.Strategy.Turn.{Turn}
use russian_ai_cup.Strategy.Turns.{
  Globals, init, begin_turn, cover_all, troopers_of, is_stale, random_point, pick_target,
  reset_target,
}
use russian_ai_cup.Strategy.Turns.Fair.{Fair, IsMapped, sight}
use russian_ai_cup.Runner.Plays.{Over, over}
use russian_ai_cup.Runner.Serves.{Asks, closes, asks_again, Serves, asks_first}
use russian_ai_cup.Runner.Legal.{Serves-IsMapped}
use russian_ai_cup.Tests.Samples.{rules, sniper-TrooperFits}
use russian_ai_cup.Tests.Turns.{counter, easy, row, second_turn, sniper_here}
use russian_ai_cup.Tests.Session.{column-Fits}

abbrev pub seven : World
seven = record row {
  width = pos 7;
  cells = replicate 7 (free ∷ []);
  cell_visibilities = replicate 147 true;
}

abbrev pub covered_seven : Cells
covered_seven = (low_cover ∷ []) ∷ replicate 6 (free ∷ [])

abbrev pub context : PlayerContext
context = record { trooper = sniper_here; world = seven }

-- As the program starts, and after its turns: the second cell that is drawn is six steps away.
abbrev pub at_start : Globals ℕ
at_start = record second_turn {
  size_x = pos 0;
  size_y = pos 0;
  target = record { x = pos 0; y = pos 0 };
  move_index = negsuc 0;
  floyd_dist = λ a b. 0;
  rng = 1;
}

abbrev pub after_first : Globals ℕ
after_first = record {
  size_x = pos 7;
  size_y = pos 1;
  target = record { x = pos 6; y = pos 0 };
  move_index = pos 0;
  floyd_dist = floyd seven.cells (pos 7) (pos 1);
  rng = 32_502;
}

abbrev pub after_second : Globals ℕ
after_second = record after_first { move_index = pos 1 }

pub seven-covered : cover_all seven.cells seven.troopers ≡ some covered_seven
unfolding cover_all
seven-covered = refl

pub seven-team : troopers_of true seven.troopers ≡ sniper_here ∷ []
unfolding troopers_of
seven-team = refl

pub first_picked :
    pick_target counter 5
      (point_of sniper_here.unit)
      (reset_target counter (point_of sniper_here.unit) (begin_turn counter seven at_start).1)
    ≡ some after_first
unfolding pick_target reset_target begin_turn init is_stale random_point floyd is_free neighs
    push_if is_correct ◌+ℤ◌ ◌-ℤ◌
first_picked = refl

pub second_picked :
    pick_target counter 5
      (point_of sniper_here.unit)
      (reset_target counter (point_of sniper_here.unit) (begin_turn counter seven after_first).1)
    ≡ some after_second
unfolding pick_target reset_target begin_turn init is_stale random_point floyd is_free neighs
    push_if is_correct ◌+ℤ◌ ◌-ℤ◌
second_picked = refl

pub sniper-on_board : is_correct seven.width seven.height (point_of sniper_here.unit) ≡ true
unfolding is_correct
sniper-on_board = refl

abbrev pub first_Fair : Fair counter easy 5 rules sniper_here seven at_start after_first
first_Fair = record {
  cells = covered_seven;
  mate = sniper_here;
  mates = [];
  covered = seven-covered;
  on_board = sniper-on_board;
  picked = first_picked;
  team = seven-team;
  named = refl;
  some_points = omega arith;
}

abbrev pub second_Fair : Fair counter easy 5 rules sniper_here seven after_first after_second
second_Fair = record {
  cells = covered_seven;
  mate = sniper_here;
  mates = [];
  covered = seven-covered;
  on_board = sniper-on_board;
  picked = second_picked;
  team = seven-team;
  named = refl;
  some_points = omega arith;
}

pub seven-WorldFits : WorldFits seven
seven-WorldFits = record {
  move_index = omega arith;
  width = omega arith;
  height = omega arith;
  players = (omega arith, tt);
  troopers = (omega arith, (sniper-TrooperFits, tt));
  bonuses = (omega arith, tt);
}

pub seven-CellsFit : CellsFit seven.cells
seven-CellsFit = let f = column-Fits in (omega arith, (f, (f, (f, (f, (f, (f, (f, tt))))))))

pub seven-VisibilitiesFit : VisibilitiesFit 7 1 3 seven.cell_visibilities
seven-VisibilitiesFit = record {
  width_fits = omega arith;
  height_fits = omega arith;
  stances_fit = omega arith;
  product2 = omega arith;
  product3 = omega arith;
  product4 = omega arith;
  product5 = omega arith;
  size = refl;
}

abbrev pub first_asks : Asks counter easy 5 (pos 3) rules context at_start after_first
first_asks = record {
  trooper_fits = sniper-TrooperFits;
  world_fits = seven-WorldFits;
  strategy = refl;
  fair = first_Fair;
}

abbrev second_asks : Asks counter easy 5 (pos 3) rules context after_first after_second
second_asks = record {
  trooper_fits = sniper-TrooperFits;
  world_fits = seven-WorldFits;
  strategy = refl;
  fair = second_Fair;
}

-- What the server sends: the two turns, and the end of the game.
abbrev pub second_bytes : List ℕ
second_bytes = print_player_context context [] ++ print_type game_over

abbrev pub game_bytes : List ℕ
game_bytes = print_player_context context (print_terrain seven 7 1 3) ++ second_bytes

abbrev pub two_turns : List Turn
two_turns = sight counter easy 5 rules first_Fair ∷ (sight counter easy 5 rules second_Fair ∷ [])

pub two_turns-Serves :
    Serves counter easy 5
      (pos 3)
      rules
      (Over after_second (terrain_of seven))
      at_start
      game_bytes
      two_turns
two_turns-Serves =
    asks_first context 7 1 3 first_asks refl seven-CellsFit seven-VisibilitiesFit refl refl (
      asks_again context second_asks
        (record { width = refl; height = refl; cells = refl; visibilities = refl }) refl refl
        (closes (over refl refl refl) refl))

Serves-IsMapped_example : All IsMapped two_turns
Serves-IsMapped_example =
    Serves-IsMapped counter easy 5 (pos 3) rules (Over after_second (terrain_of seven)) at_start
      game_bytes two_turns two_turns-Serves
