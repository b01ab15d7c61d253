-- ===== src/Model/Units.antt =====
-- model/Unit.h, model/Bonus.h, model/Player.h and their sources: what stands on the map, and who
-- plays. `GameUnit` is the class `Unit`.
pub mod UnitMethods
pub mod BonusMethods
pub mod PlayerMethods
use russian_ai_cup.Base.{ℕ, zero, suc, ℤ, pos, negsuc, ◌+ℤ◌, ◌-ℤ◌, ◌*ℤ◌, Bool, List}
use russian_ai_cup.Model.Double.{Double, Fpu}

pub record GameUnit : Type 0 where
  pub id : ℤ
  pub x : ℤ
  pub y : ℤ

-- The square of the distance of two cells, as an int.
unfoldable pub square_distance : ℤ → ℤ → ℤ → ℤ → ℤ
square_distance x y x' y' =
    let x_range = x' -ℤ x in let y_range = y' -ℤ y in x_range *ℤ x_range +ℤ y_range *ℤ y_range

-- Unit::getDistanceTo(int x, int y)
unfoldable pub get_distance_to : Fpu → GameUnit → ℤ → ℤ → Double
unfolding square_distance
get_distance_to fpu u x y = fpu.sqrt (fpu.of_int (square_distance u.x u.y x y))

-- Unit::getDistanceTo(const Unit& unit)
unfoldable pub get_distance_to_unit : Fpu → GameUnit → GameUnit → Double
unfolding get_distance_to
get_distance_to_unit fpu u v = get_distance_to fpu u v.x v.y

-- `unnamed_bonus` is a value of the enum that no enumerator names: one read from the wire.
pub data BonusType : Type 0 where
  unknown_bonus grenade medikit field_ration : BonusType
  unnamed_bonus : ℤ → BonusType

-- The enum's numbers, both ways.
abbrev pub bonus_type_code : BonusType → ℤ
bonus_type_code unknown_bonus = negsuc 0
bonus_type_code grenade = pos 0
bonus_type_code medikit = pos 1
bonus_type_code field_ration = pos 2
bonus_type_code (unnamed_bonus n) = n

abbrev pub bonus_type_of : ℤ → BonusType
bonus_type_of (pos zero) = grenade
bonus_type_of (pos (suc zero)) = medikit
bonus_type_of (pos (suc (suc zero))) = field_ration
bonus_type_of (negsuc zero) = unknown_bonus
bonus_type_of n = unnamed_bonus n

pub record Bonus : Type 0 where
  pub unit : GameUnit
  pub open unit use *
  pub type : BonusType

-- Bonus::Bonus()
abbrev pub new_bonus : Bonus
new_bonus = record {
  unit = record { id = negsuc 0; x = negsuc 0; y = negsuc 0 };
  type = unknown_bonus;
}

-- The name is the bytes that came over the wire.
pub record Player : Type 0 where
  pub id : ℤ
  pub name : List ℕ
  pub score : ℤ
  pub strategy_crashed : Bool
  pub approximate_x : ℤ
  pub approximate_y : ℤ
