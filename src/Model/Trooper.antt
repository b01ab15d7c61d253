-- ===== src/Model/Trooper.antt =====
-- model/Trooper.h and model/Trooper.cpp.
pub mod Methods
use russian_ai_cup.Base.{zero, suc, ℤ, pos, negsuc, Bool, false, Option, none, some}
use russian_ai_cup.Model.Double.{Double}
use russian_ai_cup.Model.Units.{GameUnit}

pub data TrooperType : Type 0 where
  unknown_trooper commander field_medic soldier sniper scout : TrooperType
  unnamed_trooper : ℤ → TrooperType

abbrev pub trooper_type_code : TrooperType → ℤ
trooper_type_code unknown_trooper = negsuc 0
trooper_type_code commander = pos 0
trooper_type_code field_medic = pos 1
trooper_type_code soldier = pos 2
trooper_type_code sniper = pos 3
trooper_type_code scout = pos 4
trooper_type_code (unnamed_trooper n) = n

abbrev pub trooper_type_of : ℤ → TrooperType
trooper_type_of (pos zero) = commander
trooper_type_of (pos (suc zero)) = field_medic
trooper_type_of (pos (suc (suc zero))) = soldier
trooper_type_of (pos (suc (suc (suc zero)))) = sniper
trooper_type_of (pos (suc (suc (suc (suc zero))))) = scout
trooper_type_of (negsuc zero) = unknown_trooper
trooper_type_of n = unnamed_trooper n

-- `stance_count` is `_TROOPER_STANCE_COUNT_`.
pub data TrooperStance : Type 0 where
  unknown_stance prone kneeling standing stance_count : TrooperStance
  unnamed_stance : ℤ → TrooperStance

abbrev pub trooper_stance_code : TrooperStance → ℤ
trooper_stance_code unknown_stance = negsuc 0
trooper_stance_code prone = pos 0
trooper_stance_code kneeling = pos 1
trooper_stance_code standing = pos 2
trooper_stance_code stance_count = pos 3
trooper_stance_code (unnamed_stance n) = n

abbrev pub trooper_stance_of : ℤ → TrooperStance
trooper_stance_of (pos zero) = prone
trooper_stance_of (pos (suc zero)) = kneeling
trooper_stance_of (pos (suc (suc zero))) = standing
trooper_stance_of (pos (suc (suc (suc zero)))) = stance_count
trooper_stance_of (negsuc zero) = unknown_stance
trooper_stance_of n = unnamed_stance n

pub record Trooper : Type 0 where
  pub unit : GameUnit
  pub open unit use *
  pub player_id : ℤ
  pub teammate_index : ℤ
  pub teammate : Bool
  pub type : TrooperType
  pub stance : TrooperStance
  pub hitpoints : ℤ
  pub maximal_hitpoints : ℤ
  pub action_points : ℤ
  pub initial_action_points : ℤ
  pub vision_range : Double
  pub shooting_range : Double
  pub shoot_cost : ℤ
  pub standing_damage : ℤ
  pub kneeling_damage : ℤ
  pub prone_damage : ℤ
  pub damage : ℤ
  pub holding_grenade : Bool
  pub holding_medikit : Bool
  pub holding_field_ration : Bool

-- Trooper::getDamage(TrooperStance); `none` is `exit(10030)`.
unfoldable pub get_damage : Trooper → TrooperStance → Option ℤ
get_damage t prone = some t.prone_damage
get_damage t kneeling = some t.kneeling_damage
get_damage t standing = some t.standing_damage
get_damage t _ = none

-- Trooper::Trooper(). A double 0.0 is the pattern 0.
abbrev pub new_trooper : Trooper
new_trooper = record {
  unit = record { id = negsuc 0; x = negsuc 0; y = negsuc 0 };
  player_id = negsuc 0;
  teammate_index = negsuc 0;
  teammate = false;
  type = unknown_trooper;
  stance = unknown_stance;
  hitpoints = negsuc 0;
  maximal_hitpoints = negsuc 0;
  action_points = negsuc 0;
  initial_action_points = negsuc 0;
  vision_range = 0;
  shooting_range = 0;
  shoot_cost = negsuc 0;
  standing_damage = negsuc 0;
  kneeling_damage = negsuc 0;
  prone_damage = negsuc 0;
  damage = negsuc 0;
  holding_grenade = false;
  holding_medikit = false;
  holding_field_ration = false;
}
