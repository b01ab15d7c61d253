-- ===== src/Model/Trooper/Methods.antt =====
-- The constructor and the methods of the class Trooper (model/Trooper.cpp).
use russian_ai_cup.Base.{Bool, ℤ}
use russian_ai_cup.Model.Double.{Double}
use russian_ai_cup.Model.Trooper.{Trooper, TrooperStance, TrooperType}

-- Trooper::Trooper(...)
abbrev pub make_trooper :
    ℤ
    → ℤ
    → ℤ
    → ℤ
    → ℤ
    → Bool
    → TrooperType
    → TrooperStance
    → ℤ
    → ℤ
    → ℤ
    → ℤ
    → Double
    → Double
    → ℤ
    → ℤ
    → ℤ
    → ℤ
    → ℤ
    → Bool
    → Bool
    → Bool
    → Trooper
make_trooper id x y player_id teammate_index teammate type stance hitpoints maximal_hitpoints
      action_points initial_action_points vision_range shooting_range shoot_cost standing_damage
      kneeling_damage prone_damage damage holding_grenade holding_medikit holding_field_ration =
    record {
      unit = record { id = id; x = x; y = y };
      player_id = player_id;
      teammate_index = teammate_index;
      teammate = teammate;
      type = type;
      stance = stance;
      hitpoints = hitpoints;
      maximal_hitpoints = maximal_hitpoints;
      action_points = action_points;
      initial_action_points = initial_action_points;
      vision_range = vision_range;
      shooting_range = shooting_range;
      shoot_cost = shoot_cost;
      standing_damage = standing_damage;
      kneeling_damage = kneeling_damage;
      prone_damage = prone_damage;
      damage = damage;
      holding_grenade = holding_grenade;
      holding_medikit = holding_medikit;
      holding_field_ration = holding_field_ration;
    }

abbrev pub get_player_id : Trooper → ℤ
get_player_id t = t.player_id

abbrev pub get_teammate_index : Trooper → ℤ
get_teammate_index t = t.teammate_index

abbrev pub is_teammate : Trooper → Bool
is_teammate t = t.teammate

abbrev pub get_type : Trooper → TrooperType
get_type t = t.type

abbrev pub get_stance : Trooper → TrooperStance
get_stance t = t.stance

abbrev pub get_hitpoints : Trooper → ℤ
get_hitpoints t = t.hitpoints

abbrev pub get_maximal_hitpoints : Trooper → ℤ
get_maximal_hitpoints t = t.maximal_hitpoints

abbrev pub get_action_points : Trooper → ℤ
get_action_points t = t.action_points

abbrev pub get_initial_action_points : Trooper → ℤ
get_initial_action_points t = t.initial_action_points

abbrev pub get_vision_range : Trooper → Double
get_vision_range t = t.vision_range

abbrev pub get_shooting_range : Trooper → Double
get_shooting_range t = t.shooting_range

abbrev pub get_shoot_cost : Trooper → ℤ
get_shoot_cost t = t.shoot_cost

abbrev pub get_standing_damage : Trooper → ℤ
get_standing_damage t = t.standing_damage

abbrev pub get_kneeling_damage : Trooper → ℤ
get_kneeling_damage t = t.kneeling_damage

abbrev pub get_prone_damage : Trooper → ℤ
get_prone_damage t = t.prone_damage

abbrev pub get_current_damage : Trooper → ℤ
get_current_damage t = t.damage

abbrev pub is_holding_grenade : Trooper → Bool
is_holding_grenade t = t.holding_grenade

abbrev pub is_holding_medikit : Trooper → Bool
is_holding_medikit t = t.holding_medikit

abbrev pub is_holding_field_ration : Trooper → Bool
is_holding_field_ration t = t.holding_field_ration
