-- ===== src/Strategy/Turns/Fair.antt =====
-- A turn that the server may ask for, and what MyStrategy::move answers.
use russian_ai_cup.Base.{ℕ, ◌≤◌, ◌<◌, ◌≡◌, refl, pos, ◌≤ℤ◌, true, some, List, ◌∷◌, length, arith}
use russian_ai_cup.Model.Double.{Fpu}
use russian_ai_cup.Model.Game.{Game}
use russian_ai_cup.Model.Move.{Move, end_turn}
use russian_ai_cup.Model.Trooper.{Trooper}
use russian_ai_cup.Model.World.{World, Cells}
use russian_ai_cup.Strategy.Point.{point_of, is_correct}
use russian_ai_cup.Strategy.Floyd.{floyd, inf, free_points}
use russian_ai_cup.Strategy.Floyd.Shortest.{FreeWalk}
use russian_ai_cup.Strategy.Turn.{Turn, State, make_action}
use russian_ai_cup.Strategy.Score.{collect, score}
use russian_ai_cup.Strategy.Score.Machine.{machine_score}
use russian_ai_cup.Strategy.Search.{Tracker, fresh}
use russian_ai_cup.Strategy.Search.Plans.{Plan, Explored}
use russian_ai_cup.Strategy.Search.Bounds.{IsTame}
use russian_ai_cup.Strategy.Search.Optimal.{Rooted}
use russian_ai_cup.Strategy.Search.Legal.{is_named, IsLegal, cost_of}
use russian_ai_cup.Strategy.Search.Whole.{IsWhole}
use russian_ai_cup.Strategy.Turns.Sums.{IsReached, Plan-machine_score}
use russian_ai_cup.Strategy.Turns.Reach.{pick_target-reachable}
use russian_ai_cup.Strategy.Turns.Orders.{seen, run_turn-orders}
use russian_ai_cup.Strategy.Turns.Board.{Knows, Ready, begin_turn-Knows, reset-Knows, turn-Knows}
use russian_ai_cup.Strategy.Turns.{
  Library, Globals, begin_turn, cover_all, troopers_of, pick_target, reset_target, ordered, start,
  run_turn,
}

-- The map of a turn is the one of its world: the sizes, the distances, and a target in reach, more
-- than five steps away.
pub record IsMapped (t : Turn) : Type 0 where
  pub width : t.size_x ≡ t.world.width
  pub height : t.size_y ≡ t.world.height
  pub table : t.floyd_dist ≡ floyd t.world.cells t.world.width t.world.height
  pub steps : ℕ
  pub walk :
      FreeWalk t.world.cells t.world.width t.world.height (point_of t.self.unit) t.target steps
  pub far : 5 < steps
  pub shortest :
      (m : ℕ)
      → FreeWalk t.world.cells t.world.width t.world.height (point_of t.self.unit) t.target m
      → m < inf
      → steps ≤ m

-- A turn on a whole board in which no score can overflow: at most 19 troopers on each side, no damage
-- or healing above 500 points, fewer than 500000 free cells, and from the end of every plan of at most
-- ten actions the target and every teammate can be reached.
pub record IsBounded (t : Turn) : Type 0 where
  pub whole : IsWhole t
  pub tame : IsTame t
  pub few_free : length (free_points t.world.cells t.world.width t.world.height) < 500_000
  pub reached : (e : State) → Plan t 10 t.self.action_points (start t.self) e → IsReached t e

-- An order of a turn is the best action of a search over every plan of at most ten actions, legal at
-- the start after picking up what lies there, and the trooper can pay for it.
pub record IsBest (t : Turn) (move : Move) : Type 0 where
  pub tracker : Tracker
  pub explored :
      Explored
        (score t)
        (Rooted t 9 true (make_action end_turn) t.self.action_points (start t.self))
        fresh
        tracker
  pub best : move ≡ tracker.best_action
  pub legal : IsLegal t (collect t (start t.self)) move
  pub paid : cost_of t (collect t (start t.self)).stance move.action ≤ℤ t.self.action_points

module _ {R : Type 0} (lib : Library R) (fpu : Fpu) (fuel : ℕ) (game : Game) where
  -- A turn with the globals `g` in which the troopers are inside the board's cells, the trooper is on
  -- the board in a named stance, has a team and no debt of action points, and a target is picked within
  -- the fuel, which leaves the globals `g2`.
  pub record Fair (self : Trooper) (world : World) (g g2 : Globals R) : Type 0 where
    pub cells : Cells
    pub mate : Trooper
    pub mates : List Trooper
    pub covered : cover_all world.cells world.troopers ≡ some cells
    pub on_board : is_correct world.width world.height (point_of self.unit) ≡ true
    pub picked :
        pick_target lib fuel
          (point_of self.unit)
          (reset_target lib (point_of self.unit) (begin_turn lib world g).1)
        ≡ some g2
    pub team : troopers_of true world.troopers ≡ mate ∷ mates
    pub named : is_named self.stance ≡ true
    pub some_points : pos 0 ≤ℤ self.action_points

  module _ {self : Trooper} {world : World} {g g2 : Globals R} where
    -- What the search of the turn sees.
    abbrev pub sight : Fair self world g g2 → Turn
    sight fair = seen lib fpu fuel self world game g g2 fair.cells fair.mate fair.mates

    pub sight-IsMapped : (fair : Fair self world g g2) → Ready world g → IsMapped (sight fair)
    sight-IsMapped fair ready =
        let before = reset-Knows lib world (point_of self.unit) g ready in
        let after = turn-Knows lib world (point_of self.unit) fuel g g2 ready fair.picked in
        let (steps, walk, far, shortest) =
          pick_target-reachable lib world.cells world.width world.height (point_of self.unit) fuel
            (reset_target lib (point_of self.unit) (begin_turn lib world g).1) g2 before.table
            fair.picked in
        record {
          width = after.width;
          height = after.height;
          table = after.table;
          steps = steps;
          walk = walk;
          far = far;
          shortest = shortest;
        }

    inside_sizes :
        (fair : Fair self world g g2)
        → Ready world g
        → is_correct
            (begin_turn lib world g).1.size_x
            (begin_turn lib world g).1.size_y
            (point_of self.unit)
          ≡ true
    inside_sizes fair ready =
        let begun = begin_turn-Knows lib world g ready in
        rw (begun.width, begun.height) fair.on_board

    sight-scored :
        (fair : Fair self world g g2)
        → Ready world g
        → IsBounded (sight fair)
        → (e : State) → Plan (sight fair) 10 self.action_points (start self) e
        → machine_score (sight fair) e ≡ some (score (sight fair) e)
    sight-scored fair ready bounded e plan =
        let mapped = sight-IsMapped fair ready in
        Plan-machine_score (sight fair) world.cells world.width world.height self.action_points e
          bounded.tame (rw fair.team (omega arith)) mapped.table bounded.few_free plan
          (bounded.reached e plan)

    -- From globals that are ready for the world, in a bounded turn: it ends with an order, the best
    -- one, and the globals know the board.
    pub fair_turn :
        (fair : Fair self world g g2)
        → Ready world g
        → IsBounded (sight fair)
        → (move : Move) × (run_turn lib fpu fuel self world game g ≡ ordered move g2)
          × IsBest (sight fair) move
          × Knows world g2
    fair_turn fair ready bounded =
        let (tr, order, explored, legal, paid) =
          run_turn-orders lib fpu fuel self world game g g2 fair.cells fair.mate fair.mates
            (score (sight fair)) fair.covered (inside_sizes fair ready) fair.picked fair.team
            fair.named fair.some_points bounded.whole (sight-scored fair ready bounded) in
        (
          tr.best_action,
          order,
          record { tracker = tr; explored = explored; best = refl; legal = legal; paid = paid },
          turn-Knows lib world (point_of self.unit) fuel g g2 ready fair.picked,
        )
