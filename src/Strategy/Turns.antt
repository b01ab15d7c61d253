-- ===== src/Strategy/Turns.antt =====
-- MyStrategy::move, the constructor of SlavaStrategy, SlavaStrategy::init and SlavaStrategy::run
-- (MyStrategy.cpp): one turn of a trooper. The globals of the file are passed on.
pub mod Target
pub mod Orders
pub mod Stances
pub mod Reach
pub mod Sums
pub mod Board
pub mod Fair
pub mod Replies
use russian_ai_cup.Base.{
  ℕ, zero, suc, ◌≤◌, ◌%◌, ℤ, pos, negsuc, pos_part, abs, ◌+ℤ◌, Bool, true, false, ◌&&◌, ◌||◌, not,
  Option, none, some, List, [], ◌∷◌, leb, ◌==◌, if◌then◌else◌,
}
use russian_ai_cup.Model.Double.{Fpu}
use russian_ai_cup.Model.Game.{Game}
use russian_ai_cup.Model.Move.{Move}
use russian_ai_cup.Model.Trooper.{Trooper, TrooperStance, prone, kneeling, standing}
use russian_ai_cup.Model.World.{World, Cells, CellType, low_cover}
use russian_ai_cup.Model.Trooper.Methods.{
  get_action_points, get_stance, is_holding_field_ration, is_holding_grenade, is_holding_medikit,
  is_teammate,
}
use russian_ai_cup.Model.World.Methods.{get_cells, get_height, get_troopers, get_width}
use russian_ai_cup.Strategy.Point.{Point, point_of, is_correct}
use russian_ai_cup.Strategy.Floyd.{Distances, floyd, inf}
use russian_ai_cup.Strategy.Turn.{Turn, State, min_distance}
use russian_ai_cup.Strategy.Search.{Outcome, done, exited, overflowed, maximize_score, fresh}

-- The C library's `srand` and `rand`. C++ does not say which argument of a call is computed first:
-- `x_first` is the compiler's choice.
pub record Library (R : Type 0) : Type 0 where
  pub srand : ℕ → R
  pub rand : R → ℕ × R
  pub x_first : Bool

-- The globals. `move_index` starts at -1.
pub record Globals (R : Type 0) : Type 0 where
  pub size_x : ℤ
  pub size_y : ℤ
  pub target : Point
  pub move_index : ℤ
  pub floyd_dist : Distances
  pub rng : R

-- `cells[x][y] = v`; a write out of range, undefined in C++, is `none`.
unfoldable pub set_in_column : List CellType → ℕ → CellType → Option (List CellType)
set_in_column [] y v = none
set_in_column (c ∷ cs) zero v = some (v ∷ cs)
set_in_column (c ∷ cs) (suc y) v = elim (set_in_column cs y v) [
  | some cs' ↦ some (c ∷ cs')
  | none ↦ none
]

unfoldable pub set_in_columns : Cells → ℕ → ℕ → CellType → Option Cells
unfolding set_in_column
set_in_columns [] x y v = none
set_in_columns (c ∷ cs) zero y v = elim (set_in_column c y v) [
  | some c' ↦ some (c' ∷ cs)
  | none ↦ none
]
set_in_columns (c ∷ cs) (suc x) y v = elim (set_in_columns cs x y v) [
  | some cs' ↦ some (c ∷ cs')
  | none ↦ none
]

unfoldable pub set_cell : Cells → ℤ → ℤ → CellType → Option Cells
unfolding set_in_columns
set_cell cells (pos x) (pos y) v = set_in_columns cells x y v
set_cell cells _ _ v = none

-- The loop of the constructor over the troopers: their cells become covers.
unfoldable pub cover_all : Cells → List Trooper → Option Cells
unfolding set_cell
cover_all cells [] = some cells
cover_all cells (trooper ∷ rest) = elim (set_cell cells trooper.x trooper.y low_cover) [
  | some cells' ↦ cover_all cells' rest
  | none ↦ none
]

-- `teammates` and `enemies`, in order.
unfoldable pub troopers_of : Bool → List Trooper → List Trooper
troopers_of mates [] = []
troopers_of mates (trooper ∷ rest) =
    let others = troopers_of mates rest in
    if (if mates then (is_teammate trooper) else not (is_teammate trooper))
    then trooper ∷ others
    else others

module _ {R : Type 0} (lib : Library R) where
  -- SlavaStrategy::init, without its debug output: the globals, and the member `stances`.
  unfoldable pub init : World → Globals R → List TrooperStance × Globals R
  init world g = (
    prone ∷ kneeling ∷ standing ∷ [],
    record g {
      rng = lib.srand 32498;
      size_x = (get_width world);
      size_y = (get_height world);
      floyd_dist = floyd (get_cells world) (get_width world) (get_height world);
    },
  )

  -- `move_index += 1; if (move_index == 0) { init(); }`
  unfoldable pub begin_turn : World → Globals R → List TrooperStance × Globals R
  unfolding init
  begin_turn world g = elim (g.move_index +ℤ pos 1) [
    | pos zero ↦ init world (record g { move_index = pos 0 })
    | n ↦ ([], record g { move_index = n })
  ]

  -- `Point(random(sizeX), random(sizeY))`, for sizes that are not 0.
  unfoldable pub random_point : Globals R → Point × R
  random_point g =
      let (m, r) = lib.rand g.rng in
      let (n, r') = lib.rand r in
      let width = pos_part g.size_x in
      let height = pos_part g.size_y in
      (
        if lib.x_first
            then record { x = pos (m % width); y = pos (n % height) }
            else record { x = pos (n % width); y = pos (m % height) },
        r',
      )

  -- min_distance(self, target) <= 5 || min_distance(self, target) == inf
  unfoldable pub is_stale : Globals R → Point → Bool
  is_stale g self =
      leb (min_distance g.floyd_dist self g.target) 5
      || min_distance g.floyd_dist self g.target == inf

  -- The `while` of `run`; `none` if the fuel ends.
  unfoldable pub pick_target : ℕ → Point → Globals R → Option (Globals R)
  unfolding is_stale random_point
  pick_target zero self g = if is_stale g self then none else some g
  pick_target (suc fuel) self g =
      let (point, r) = random_point g in
      let rest = pick_target fuel self (record g { target = point; rng = r }) in
      if is_stale g self then rest else some g

  -- `if (move_index % 128 == 0) { target = self; }`
  unfoldable pub reset_target : Point → Globals R → Globals R
  reset_target self g = if abs g.move_index % 128 == 0 then record g { target = self } else g

-- How a turn ends. `still_picking` is a `while` that has not ended within the fuel.
pub data Reply (R : Type 0) : Type 0 where
  ordered : Move → Globals R → Reply R
  stopped : ℕ → Reply R
  undefined_reply still_picking : Reply R

-- The interface `Strategy` of Strategy.h: `move` answers with an order, and changes the globals.
abbrev pub StrategyMove : Type 0 → Type 0
StrategyMove R = Trooper → World → Game → Globals R → Reply R

-- The state that `run` starts the search from.
unfoldable pub start : Trooper → State
start self = record {
  mate_damage = pos 0;
  damage = pos 0;
  kills = pos 0;
  pos = point_of self.unit;
  stance = (get_stance self);
  has_medkit = (is_holding_medikit self);
  has_field_ration = (is_holding_field_ration self);
  used_field_ration = false;
  has_grenade = (is_holding_grenade self);
  used_grenade = false;
}

-- The members of a strategy after its constructor.
abbrev pub turn_of :
    {R : Type 0} → Fpu → Trooper → World → Game → List TrooperStance → Cells → Globals R → Turn
turn_of fpu self world game stances cells g = record {
  fpu = fpu;
  self = self;
  world = world;
  game = game;
  cells = cells;
  teammates = troopers_of true (get_troopers world);
  enemies = troopers_of false (get_troopers world);
  stances = stances;
  size_x = g.size_x;
  size_y = g.size_y;
  target = g.target;
  floyd_dist = g.floyd_dist;
}

abbrev pub reply_of : {R : Type 0} → Globals R → Outcome → Reply R
reply_of g (done tr) = ordered tr.best_action g
reply_of g (exited code) = stopped code
reply_of g overflowed = undefined_reply

-- Without teammates the score divides by zero.
unfoldable pub with_team : {R : Type 0} → List Trooper → Reply R → Reply R
with_team [] reply = undefined_reply
with_team (mate ∷ mates) reply = reply

unfoldable pub search_from : {R : Type 0} → Turn → Trooper → Globals R → Reply R
unfolding start with_team
search_from t self g =
    with_team t.teammates
      (reply_of g (maximize_score t 10 0 (get_action_points self) (start self) fresh))

-- MyStrategy::move. Distances are read at the trooper's own position: off the board this is
-- undefined.
unfoldable pub run_turn : {R : Type 0} → Library R → Fpu → ℕ → StrategyMove R
unfolding begin_turn reset_target pick_target search_from
run_turn lib fpu fuel self world game g =
    let (stances, g1) = begin_turn lib world g in
    elim (cover_all (get_cells world) (get_troopers world)) [
      | none ↦ undefined_reply
      | some cells ↦
          if is_correct g1.size_x g1.size_y (point_of self.unit)
          then elim (pick_target lib fuel (point_of self.unit)
              (reset_target lib (point_of self.unit) g1)) [
                | none ↦ still_picking
                | some g2 ↦ search_from (turn_of fpu self world game stances cells g2) self g2
              ]
          else undefined_reply
    ]
