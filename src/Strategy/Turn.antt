-- ===== src/Strategy/Turn.antt =====
-- What `SlavaStrategy` sees during one turn, and `struct State`: a position that a sequence of planned
-- actions leads to (MyStrategy.cpp).
use russian_ai_cup.Base.{ℕ, ℤ, Bool, List}
use russian_ai_cup.Model.Double.{Fpu}
use russian_ai_cup.Model.Game.{Game}
use russian_ai_cup.Model.Trooper.{Trooper, TrooperStance}
use russian_ai_cup.Model.World.{World, Cells}
use russian_ai_cup.Model.Move.{Move, ActionType, new_move}
use russian_ai_cup.Model.Move.Methods.{set_action, set_x, set_y}
use russian_ai_cup.Strategy.Point.{Point}
use russian_ai_cup.Strategy.Floyd.{Distances}

-- The members of `SlavaStrategy` that a search only reads, and the globals that it reads.
pub record Turn : Type 0 where
  pub fpu : Fpu
  pub self : Trooper
  pub world : World
  pub game : Game
  pub cells : Cells
  pub teammates : List Trooper
  pub enemies : List Trooper
  pub stances : List TrooperStance
  pub size_x : ℤ
  pub size_y : ℤ
  pub target : Point
  pub floyd_dist : Distances

-- int min_distance(const Point& a, const Point& b), for points of the board: a read off it is
-- undefined in C++.
abbrev pub min_distance : Distances → Point → Point → ℕ
min_distance d a b = d a b

-- The three functions `make_action`.
abbrev pub make_action : ActionType → Move
make_action action = set_action action new_move

abbrev pub make_action_at : ActionType → ℤ → ℤ → Move
make_action_at action x y = set_y y (set_x x (set_action action new_move))

abbrev pub make_action_to : ActionType → Point → Move
make_action_to action p = make_action_at action p.x p.y

pub record State : Type 0 where
  pub mate_damage : ℤ
  pub damage : ℤ
  pub kills : ℤ
  pub pos : Point
  pub stance : TrooperStance
  pub has_medkit : Bool
  pub has_field_ration : Bool
  pub used_field_ration : Bool
  pub has_grenade : Bool
  pub used_grenade : Bool
