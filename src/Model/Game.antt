-- ===== src/Model/Game.antt =====
-- model/Game.h and model/Game.cpp: the constants of the game.
pub mod Methods
use russian_ai_cup.Base.{ℤ}
use russian_ai_cup.Model.Double.{Double}

pub record Game : Type 0 where
  pub move_count : ℤ
  pub last_player_elimination_score : ℤ
  pub player_elimination_score : ℤ
  pub trooper_elimination_score : ℤ
  pub trooper_damage_score_factor : Double
  pub stance_change_cost : ℤ
  pub standing_move_cost : ℤ
  pub kneeling_move_cost : ℤ
  pub prone_move_cost : ℤ
  pub commander_aura_bonus_action_points : ℤ
  pub commander_aura_range : Double
  pub commander_request_enemy_disposition_cost : ℤ
  pub commander_request_enemy_disposition_max_offset : ℤ
  pub field_medic_heal_cost : ℤ
  pub field_medic_heal_bonus_hitpoints : ℤ
  pub field_medic_heal_self_bonus_hitpoints : ℤ
  pub sniper_standing_stealth_bonus : Double
  pub sniper_kneeling_stealth_bonus : Double
  pub sniper_prone_stealth_bonus : Double
  pub sniper_standing_shooting_range_bonus : Double
  pub sniper_kneeling_shooting_range_bonus : Double
  pub sniper_prone_shooting_range_bonus : Double
  pub scout_stealth_bonus_negation : Double
  pub grenade_throw_cost : ℤ
  pub grenade_throw_range : Double
  pub grenade_direct_damage : ℤ
  pub grenade_collateral_damage : ℤ
  pub medikit_use_cost : ℤ
  pub medikit_bonus_hitpoints : ℤ
  pub medikit_heal_self_bonus_hitpoints : ℤ
  pub field_ration_eat_cost : ℤ
  pub field_ration_bonus_action_points : ℤ

-- Game::Game(...)
abbrev pub make_game :
    ℤ
    → ℤ
    → ℤ
    → ℤ
    → Double
    → ℤ
    → ℤ
    → ℤ
    → ℤ
    → ℤ
    → Double
    → ℤ
    → ℤ
    → ℤ
    → ℤ
    → ℤ
    → Double
    → Double
    → Double
    → Double
    → Double
    → Double
    → Double
    → ℤ
    → Double
    → ℤ
    → ℤ
    → ℤ
    → ℤ
    → ℤ
    → ℤ
    → ℤ
    → Game
make_game move_count last_player_elimination_score player_elimination_score
      trooper_elimination_score trooper_damage_score_factor stance_change_cost standing_move_cost
      kneeling_move_cost prone_move_cost commander_aura_bonus_action_points commander_aura_range
      commander_request_enemy_disposition_cost commander_request_enemy_disposition_max_offset
      field_medic_heal_cost field_medic_heal_bonus_hitpoints field_medic_heal_self_bonus_hitpoints
      sniper_standing_stealth_bonus sniper_kneeling_stealth_bonus sniper_prone_stealth_bonus
      sniper_standing_shooting_range_bonus sniper_kneeling_shooting_range_bonus
      sniper_prone_shooting_range_bonus scout_stealth_bonus_negation grenade_throw_cost
      grenade_throw_range grenade_direct_damage grenade_collateral_damage medikit_use_cost
      medikit_bonus_hitpoints medikit_heal_self_bonus_hitpoints field_ration_eat_cost
      field_ration_bonus_action_points =
    record {
      move_count = move_count;
      last_player_elimination_score = last_player_elimination_score;
      player_elimination_score = player_elimination_score;
      trooper_elimination_score = trooper_elimination_score;
      trooper_damage_score_factor = trooper_damage_score_factor;
      stance_change_cost = stance_change_cost;
      standing_move_cost = standing_move_cost;
      kneeling_move_cost = kneeling_move_cost;
      prone_move_cost = prone_move_cost;
      commander_aura_bonus_action_points = commander_aura_bonus_action_points;
      commander_aura_range = commander_aura_range;
      commander_request_enemy_disposition_cost = commander_request_enemy_disposition_cost;
      commander_request_enemy_disposition_max_offset =
          commander_request_enemy_disposition_max_offset;
      field_medic_heal_cost = field_medic_heal_cost;
      field_medic_heal_bonus_hitpoints = field_medic_heal_bonus_hitpoints;
      field_medic_heal_self_bonus_hitpoints = field_medic_heal_self_bonus_hitpoints;
      sniper_standing_stealth_bonus = sniper_standing_stealth_bonus;
      sniper_kneeling_stealth_bonus = sniper_kneeling_stealth_bonus;
      sniper_prone_stealth_bonus = sniper_prone_stealth_bonus;
      sniper_standing_shooting_range_bonus = sniper_standing_shooting_range_bonus;
      sniper_kneeling_shooting_range_bonus = sniper_kneeling_shooting_range_bonus;
      sniper_prone_shooting_range_bonus = sniper_prone_shooting_range_bonus;
      scout_stealth_bonus_negation = scout_stealth_bonus_negation;
      grenade_throw_cost = grenade_throw_cost;
      grenade_throw_range = grenade_throw_range;
      grenade_direct_damage = grenade_direct_damage;
      grenade_collateral_damage = grenade_collateral_damage;
      medikit_use_cost = medikit_use_cost;
      medikit_bonus_hitpoints = medikit_bonus_hitpoints;
      medikit_heal_self_bonus_hitpoints = medikit_heal_self_bonus_hitpoints;
      field_ration_eat_cost = field_ration_eat_cost;
      field_ration_bonus_action_points = field_ration_bonus_action_points;
    }
