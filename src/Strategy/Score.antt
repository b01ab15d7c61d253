-- ===== src/Strategy/Score.antt =====
-- The first half of SlavaStrategy::maximize_score: what a state picks up, and what it is worth (over
-- the integers; `Score.Machine` has it in the numbers of the machine).
pub mod Machine
pub mod Small
pub mod Exact
pub mod Overflow
use mathlib.Core.List.{foldl}
use russian_ai_cup.Base.{
  ℕ, suc, ◌+◌, ◌*◌, ◌/◌, ℤ, pos, ◌+ℤ◌, ◌-ℤ◌, ◌*ℤ◌, ◌==ℤ◌, leb_ℤ, Bool, true, false, not, ◌&&◌, ◌||◌,
  List, [], ◌∷◌, length, if◌then◌else◌,
}
use russian_ai_cup.Model.Units.{Bonus, BonusType, medikit, field_ration, grenade}
use russian_ai_cup.Model.Trooper.{Trooper, TrooperType, TrooperStance, commander, scout}
use russian_ai_cup.Model.World.{is_visible}
use russian_ai_cup.Model.Game.Methods.{get_commander_aura_range, get_grenade_throw_range}
use russian_ai_cup.Model.Trooper.Methods.{get_shooting_range, get_type}
use russian_ai_cup.Model.World.Methods.{get_bonuses}
use russian_ai_cup.Strategy.Point.{point_of, eq_point, distance_to}
use russian_ai_cup.Strategy.Turn.{Turn, State, min_distance}

-- A bonus under the trooper, by its type.
unfoldable pub pick_up : BonusType → State → State
pick_up medikit s = record s { has_medkit = true }
pick_up field_ration s = if not s.used_field_ration then record s { has_field_ration = true } else s
pick_up grenade s = if not s.used_grenade then record s { has_grenade = true } else s
pick_up _ s = s

unfoldable pub collect_one : State → Bonus → State
unfolding pick_up
collect_one s bonus = if eq_point s.pos (point_of bonus.unit) then pick_up bonus.type s else s

unfoldable pub collect : Turn → State → State
unfolding collect_one
collect t s = foldl collect_one s (get_bonuses t.world)

abbrev pub is_commander : TrooperType → Bool
is_commander commander = true
is_commander _ = false

abbrev pub is_scout : TrooperType → Bool
is_scout scout = true
is_scout _ = false

unfoldable pub mates_distance : Turn → State → List Trooper → ℕ
mates_distance t s [] = 0
mates_distance t s (mate ∷ mates) =
    min_distance t.floyd_dist s.pos (point_of mate.unit) + mates_distance t s mates

unfoldable pub is_close_to_commander : Turn → State → List Trooper → Bool
is_close_to_commander t s [] = false
is_close_to_commander t s (mate ∷ mates) =
    is_commander (get_type mate)
      && t.fpu.le (distance_to t.fpu s.pos (point_of mate.unit)) (get_commander_aura_range t.game)
    || is_close_to_commander t s mates

-- An enemy sees the position from one of its stances.
unfoldable pub sees_from : Turn → State → Trooper → List TrooperStance → Bool
sees_from t s enemy [] = false
sees_from t s enemy (stance ∷ stances) =
    is_visible t.fpu t.world (get_shooting_range enemy) enemy.x enemy.y stance s.pos.x s.pos.y
      s.stance
    || sees_from t s enemy stances

unfoldable pub is_shooting : Turn → State → Trooper → Bool
unfolding sees_from
is_shooting t s enemy =
    t.fpu.le (distance_to t.fpu s.pos (point_of enemy.unit)) (get_grenade_throw_range t.game)
    || sees_from t s enemy t.stances

unfoldable pub shooting_enemies : Turn → State → List Trooper → ℕ
unfolding is_shooting
shooting_enemies t s [] = 0
shooting_enemies t s (enemy ∷ enemies) =
    let rest = shooting_enemies t s enemies in if is_shooting t s enemy then suc rest else rest

abbrev pub int_of : Bool → ℤ
int_of true = pos 1
int_of false = pos 0

-- The score of a state over the integers, to compare the score of `Score.Machine` with. Sums and
-- products are those of ℤ. `60 * mates_dist / teammates.size()` is the
-- division of two unsigned numbers; it is never by zero, since `run` refuses an empty team.
unfoldable pub score : Turn → State → ℤ
unfolding mates_distance is_close_to_commander shooting_enemies
score t s =
    let base =
      pos 0
      -ℤ pos 2000 *ℤ s.mate_damage
      +ℤ pos 300 *ℤ s.damage
      +ℤ pos 20000 *ℤ s.kills
      -ℤ pos (10000 * shooting_enemies t s t.enemies)
      +ℤ pos 400 *ℤ int_of s.has_medkit
      +ℤ pos 400 *ℤ int_of s.has_field_ration
      +ℤ pos 400 *ℤ int_of s.has_grenade
      -ℤ pos (60 * mates_distance t s t.teammates / length t.teammates) in
    let walked =
      if leb_ℤ (pos 0) s.mate_damage && s.damage ==ℤ pos 0
      then base -ℤ pos (55 * min_distance t.floyd_dist s.pos t.target)
      else base in
    if not (is_scout (get_type t.self))
    then walked +ℤ pos 500 *ℤ int_of (is_close_to_commander t s t.teammates)
    else walked
