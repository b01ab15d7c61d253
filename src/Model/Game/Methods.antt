-- ===== src/Model/Game/Methods.antt =====
-- The methods of the class Game (model/Game.cpp).
use russian_ai_cup.Base.{ℤ}
use russian_ai_cup.Model.Double.{Double}
use russian_ai_cup.Model.Game.{Game}

abbrev pub get_move_count : Game → ℤ
get_move_count g = g.move_count

abbrev pub get_last_player_elimination_score : Game → ℤ
get_last_player_elimination_score g = g.last_player_elimination_score

abbrev pub get_player_elimination_score : Game → ℤ
get_player_elimination_score g = g.player_elimination_score

abbrev pub get_trooper_elimination_score : Game → ℤ
get_trooper_elimination_score g = g.trooper_elimination_score

abbrev pub get_trooper_damage_score_factor : Game → Double
get_trooper_damage_score_factor g = g.trooper_damage_score_factor

abbrev pub get_stance_change_cost : Game → ℤ
get_stance_change_cost g = g.stance_change_cost

abbrev pub get_standing_move_cost : Game → ℤ
get_standing_move_cost g = g.standing_move_cost

abbrev pub get_kneeling_move_cost : Game → ℤ
get_kneeling_move_cost g = g.kneeling_move_cost

abbrev pub get_prone_move_cost : Game → ℤ
get_prone_move_cost g = g.prone_move_cost

abbrev pub get_commander_aura_bonus_action_points : Game → ℤ
get_commander_aura_bonus_action_points g = g.commander_aura_bonus_action_points

abbrev pub get_commander_aura_range : Game → Double
get_commander_aura_range g = g.commander_aura_range

abbrev pub get_commander_request_enemy_disposition_cost : Game → ℤ
get_commander_request_enemy_disposition_cost g = g.commander_request_enemy_disposition_cost

abbrev pub get_commander_request_enemy_disposition_max_offset : Game → ℤ
get_commander_request_enemy_disposition_max_offset g =
    g.commander_request_enemy_disposition_max_offset

abbrev pub get_field_medic_heal_cost : Game → ℤ
get_field_medic_heal_cost g = g.field_medic_heal_cost

abbrev pub get_field_medic_heal_bonus_hitpoints : Game → ℤ
get_field_medic_heal_bonus_hitpoints g = g.field_medic_heal_bonus_hitpoints

abbrev pub get_field_medic_heal_self_bonus_hitpoints : Game → ℤ
get_field_medic_heal_self_bonus_hitpoints g = g.field_medic_heal_self_bonus_hitpoints

abbrev pub get_sniper_standing_stealth_bonus : Game → Double
get_sniper_standing_stealth_bonus g = g.sniper_standing_stealth_bonus

abbrev pub get_sniper_kneeling_stealth_bonus : Game → Double
get_sniper_kneeling_stealth_bonus g = g.sniper_kneeling_stealth_bonus

abbrev pub get_sniper_prone_stealth_bonus : Game → Double
get_sniper_prone_stealth_bonus g = g.sniper_prone_stealth_bonus

abbrev pub get_sniper_standing_shooting_range_bonus : Game → Double
get_sniper_standing_shooting_range_bonus g = g.sniper_standing_shooting_range_bonus

abbrev pub get_sniper_kneeling_shooting_range_bonus : Game → Double
get_sniper_kneeling_shooting_range_bonus g = g.sniper_kneeling_shooting_range_bonus

abbrev pub get_sniper_prone_shooting_range_bonus : Game → Double
get_sniper_prone_shooting_range_bonus g = g.sniper_prone_shooting_range_bonus

abbrev pub get_scout_stealth_bonus_negation : Game → Double
get_scout_stealth_bonus_negation g = g.scout_stealth_bonus_negation

abbrev pub get_grenade_throw_cost : Game → ℤ
get_grenade_throw_cost g = g.grenade_throw_cost

abbrev pub get_grenade_throw_range : Game → Double
get_grenade_throw_range g = g.grenade_throw_range

abbrev pub get_grenade_direct_damage : Game → ℤ
get_grenade_direct_damage g = g.grenade_direct_damage

abbrev pub get_grenade_collateral_damage : Game → ℤ
get_grenade_collateral_damage g = g.grenade_collateral_damage

abbrev pub get_medikit_use_cost : Game → ℤ
get_medikit_use_cost g = g.medikit_use_cost

abbrev pub get_medikit_bonus_hitpoints : Game → ℤ
get_medikit_bonus_hitpoints g = g.medikit_bonus_hitpoints

abbrev pub get_medikit_heal_self_bonus_hitpoints : Game → ℤ
get_medikit_heal_self_bonus_hitpoints g = g.medikit_heal_self_bonus_hitpoints

abbrev pub get_field_ration_eat_cost : Game → ℤ
get_field_ration_eat_cost g = g.field_ration_eat_cost

abbrev pub get_field_ration_bonus_action_points : Game → ℤ
get_field_ration_bonus_action_points g = g.field_ration_bonus_action_points
