-- ===== src/Strategy/Turns/Orders.antt =====
-- A whole turn: the order that MyStrategy::move gives.
use russian_ai_cup.Base.{ℕ, ◌≡◌, refl, ap, ◌∙◌, ℤ, pos, ◌≤ℤ◌, true, some, List, ◌∷◌}
use russian_ai_cup.Model.Double.{Fpu}
use russian_ai_cup.Model.Game.{Game}
use russian_ai_cup.Model.Move.{end_turn}
use russian_ai_cup.Model.Trooper.{Trooper}
use russian_ai_cup.Model.World.{World, Cells}
use russian_ai_cup.Strategy.Point.{point_of, is_correct}
use russian_ai_cup.Strategy.Turn.{Turn, State, make_action}
use russian_ai_cup.Strategy.Score.{collect}
use russian_ai_cup.Strategy.Score.Machine.{machine_score}
use russian_ai_cup.Strategy.Search.{Tracker, done, maximize_score, fresh}
use russian_ai_cup.Strategy.Search.Plans.{Plan, Explored}
use russian_ai_cup.Strategy.Search.Optimal.{Rooted}
use russian_ai_cup.Strategy.Search.Whole.{IsWhole}
use russian_ai_cup.Strategy.Search.Legal.{is_named, IsSafe, IsLegal, cost_of}
use russian_ai_cup.Strategy.Search.Returns.{search_optimal, Explored-IsLegal}
use russian_ai_cup.Strategy.Turns.Target.{pick_target-keeps, reset_target-keeps}
use russian_ai_cup.Strategy.Turns.{
  Library, Globals, begin_turn, cover_all, troopers_of, pick_target, reset_target, Reply, ordered,
  start, turn_of, with_team, reply_of, search_from, run_turn,
}

module _ {R : Type 0} (lib : Library R) (fpu : Fpu) (fuel : ℕ) (self : Trooper) (world : World)
    (game : Game) (g g2 : Globals R) (cells : Cells) (mate : Trooper) (mates : List Trooper) where
  -- What the search of this turn sees.
  abbrev pub seen : Turn
  seen = turn_of fpu self world game (begin_turn lib world g).0 cells g2

  run_turn-search :
      cover_all world.cells world.troopers ≡ some cells
      → is_correct
          (begin_turn lib world g).1.size_x
          (begin_turn lib world g).1.size_y
          (point_of self.unit)
        ≡ true
      → pick_target lib fuel
          (point_of self.unit)
          (reset_target lib (point_of self.unit) (begin_turn lib world g).1)
        ≡ some g2
      → run_turn lib fpu fuel self world game g ≡ search_from seen self g2
  unfolding run_turn
  run_turn-search covered on_board picked = rw (run_turn, covered, on_board, picked) refl

  with_team-some :
      (reply : Reply R)
      → troopers_of true world.troopers ≡ mate ∷ mates
      → with_team (troopers_of true world.troopers) reply ≡ reply
  unfolding with_team
  with_team-some reply team = rw team refl

  search_from-found :
      (tr : Tracker)
      → troopers_of true world.troopers ≡ mate ∷ mates
      → maximize_score seen 10 0 self.action_points (start self) fresh ≡ done tr
      → search_from seen self g2 ≡ ordered tr.best_action g2
  unfolding search_from
  search_from-found tr team found =
      with_team-some (reply_of g2 (maximize_score seen 10 0 self.action_points (start self) fresh))
        team
      ∙ ap (reply_of g2) found

  start-IsSafe :
      is_named self.stance ≡ true
      → is_correct g2.size_x g2.size_y (point_of self.unit) ≡ true
      → IsSafe seen (start self)
  unfolding start
  start-IsSafe named on_board = record { named = named; on_board = on_board }

  still_on_board :
      is_correct
          (begin_turn lib world g).1.size_x
          (begin_turn lib world g).1.size_y
          (point_of self.unit)
        ≡ true
      → pick_target lib fuel
          (point_of self.unit)
          (reset_target lib (point_of self.unit) (begin_turn lib world g).1)
        ≡ some g2
      → is_correct g2.size_x g2.size_y (point_of self.unit) ≡ true
  still_on_board on_board picked =
      let ((x, y, _, _), _) = pick_target-keeps lib (point_of self.unit) fuel _ g2 picked in
      let (x', y', _, _) = reset_target-keeps lib (point_of self.unit) (begin_turn lib world g).1 in
      ap (λ a. is_correct a g2.size_y (point_of self.unit)) (x ∙ x')
      ∙ ap (λ b. is_correct (begin_turn lib world g).1.size_x b (point_of self.unit)) (y ∙ y')
      ∙ on_board

  pub run_turn-orders :
      (value : State → ℤ)
      → cover_all world.cells world.troopers ≡ some cells
      → is_correct
          (begin_turn lib world g).1.size_x
          (begin_turn lib world g).1.size_y
          (point_of self.unit)
        ≡ true
      → pick_target lib fuel
          (point_of self.unit)
          (reset_target lib (point_of self.unit) (begin_turn lib world g).1)
        ≡ some g2
      → troopers_of true world.troopers ≡ mate ∷ mates
      → is_named self.stance ≡ true
      → pos 0 ≤ℤ self.action_points
      → IsWhole seen
      → ((e : State)
          → Plan seen 10 self.action_points (start self) e
          → machine_score seen e ≡ some (value e))
      → (tr : Tracker) × (run_turn lib fpu fuel self world game g ≡ ordered tr.best_action g2)
        × Explored value
            (Rooted seen 9 true (make_action end_turn) self.action_points (start self))
            fresh
            tr
        × IsLegal seen (collect seen (start self)) tr.best_action
        × (cost_of seen (collect seen (start self)).stance tr.best_action.action
            ≤ℤ self.action_points)
  run_turn-orders value covered on_board picked team named some_points whole scored =
      let safe = start-IsSafe named (still_on_board on_board picked) in
      let (tr, e, explored) =
        search_optimal seen value self.action_points (start self) fresh whole safe scored in
      let (legal, paid) =
        Explored-IsLegal seen value self.action_points (start self) tr safe some_points explored in
      (
        tr,
        run_turn-search covered on_board picked ∙ search_from-found tr team e,
        explored,
        legal,
        paid,
      )
