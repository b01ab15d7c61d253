-- ===== src/Strategy/Turns/Stances.antt =====
-- The member `stances` of SlavaStrategy: `init` fills it, and runs at the first move alone, while
-- every move has a strategy of its own.
use russian_ai_cup.Base.{
  ℕ, suc, ◌≡◌, refl, ap, ◌∙◌, pos, ◌+ℤ◌, Bool, true, false, ◌||◌, List, [], arith,
}
use russian_ai_cup.Model.Double.{Fpu}
use russian_ai_cup.Model.Game.{Game}
use russian_ai_cup.Model.Trooper.{Trooper, TrooperStance}
use russian_ai_cup.Model.World.{World, Cells}
use russian_ai_cup.Strategy.Point.{point_of, distance_to}
use russian_ai_cup.Strategy.Turn.{State}
use russian_ai_cup.Strategy.Score.{is_shooting, sees_from}
use russian_ai_cup.Strategy.Turns.{Library, Globals, begin_turn, turn_of}

begin_turn-later :
    {R : Type 0} (lib : Library R) (world : World) (g : Globals R) (n : ℕ)
    → g.move_index ≡ pos n
    → (begin_turn lib world g).0 ≡ []
unfolding begin_turn ◌+ℤ◌
begin_turn-later lib world g n h =
    let e : g.move_index +ℤ pos 1 ≡ pos (suc n) = rw h (ground arith) in rw (begin_turn, e) refl

no_more_sight : (b : Bool) → (b || false) ≡ b
no_more_sight true = refl
no_more_sight false = refl

-- At every move but the first (the index of the last move is not negative), an enemy counts as
-- shooting at a state exactly if it is within the range of a grenade, whatever the visibilities are.
pub is_shooting-later :
    {R : Type 0} (lib : Library R) (fpu : Fpu) (self : Trooper) (world : World) (game : Game)
    (cells : Cells) (g g' : Globals R) (n : ℕ) (s : State) (enemy : Trooper)
    → g.move_index ≡ pos n
    → is_shooting (turn_of fpu self world game (begin_turn lib world g).0 cells g') s enemy
      ≡ fpu.le (distance_to fpu s.pos (point_of enemy.unit)) game.grenade_throw_range
unfolding is_shooting sees_from
is_shooting-later lib fpu self world game cells g g' n s enemy h =
    ap
      (λ (stances : List TrooperStance).
        is_shooting (turn_of fpu self world game stances cells g') s enemy)
      (begin_turn-later lib world g n h)
    ∙ no_more_sight (fpu.le (distance_to fpu s.pos (point_of enemy.unit)) game.grenade_throw_range)
