-- ===== src/Tests/Samples.antt =====
-- The rules of a game and a trooper, and that the wire can carry both.
use russian_ai_cup.Base.{refl, ℤ, pos, true, false, arith}
use russian_ai_cup.Model.Game.{Game}
use russian_ai_cup.Model.Trooper.{Trooper, sniper, standing}
use russian_ai_cup.Client.Wire.Units.{TrooperFits}
use russian_ai_cup.Client.Wire.GameContext.{GameFits}

abbrev pub rules : Game
rules = record {
  move_count = pos 50;
  last_player_elimination_score = pos 100;
  player_elimination_score = pos 50;
  trooper_elimination_score = pos 25;
  trooper_damage_score_factor = 0;
  stance_change_cost = pos 2;
  standing_move_cost = pos 2;
  kneeling_move_cost = pos 4;
  prone_move_cost = pos 6;
  commander_aura_bonus_action_points = pos 2;
  commander_aura_range = 0;
  commander_request_enemy_disposition_cost = pos 10;
  commander_request_enemy_disposition_max_offset = pos 10;
  field_medic_heal_cost = pos 1;
  field_medic_heal_bonus_hitpoints = pos 5;
  field_medic_heal_self_bonus_hitpoints = pos 3;
  sniper_standing_stealth_bonus = 0;
  sniper_kneeling_stealth_bonus = 0;
  sniper_prone_stealth_bonus = 0;
  sniper_standing_shooting_range_bonus = 0;
  sniper_kneeling_shooting_range_bonus = 0;
  sniper_prone_shooting_range_bonus = 0;
  scout_stealth_bonus_negation = 0;
  grenade_throw_cost = pos 8;
  grenade_throw_range = 0;
  grenade_direct_damage = pos 80;
  grenade_collateral_damage = pos 60;
  medikit_use_cost = pos 2;
  medikit_bonus_hitpoints = pos 50;
  medikit_heal_self_bonus_hitpoints = pos 30;
  field_ration_eat_cost = pos 2;
  field_ration_bonus_action_points = pos 5;
}

pub rules-GameFits : GameFits rules
rules-GameFits = record {
  move_count = omega arith;
  last_player_elimination_score = omega arith;
  player_elimination_score = omega arith;
  trooper_elimination_score = omega arith;
  trooper_damage_score_factor = omega arith;
  stance_change_cost = omega arith;
  standing_move_cost = omega arith;
  kneeling_move_cost = omega arith;
  prone_move_cost = omega arith;
  commander_aura_bonus_action_points = omega arith;
  commander_aura_range = omega arith;
  commander_request_enemy_disposition_cost = omega arith;
  commander_request_enemy_disposition_max_offset = omega arith;
  field_medic_heal_cost = omega arith;
  field_medic_heal_bonus_hitpoints = omega arith;
  field_medic_heal_self_bonus_hitpoints = omega arith;
  sniper_standing_stealth_bonus = omega arith;
  sniper_kneeling_stealth_bonus = omega arith;
  sniper_prone_stealth_bonus = omega arith;
  sniper_standing_shooting_range_bonus = omega arith;
  sniper_kneeling_shooting_range_bonus = omega arith;
  sniper_prone_shooting_range_bonus = omega arith;
  scout_stealth_bonus_negation = omega arith;
  grenade_throw_cost = omega arith;
  grenade_throw_range = omega arith;
  grenade_direct_damage = omega arith;
  grenade_collateral_damage = omega arith;
  medikit_use_cost = omega arith;
  medikit_bonus_hitpoints = omega arith;
  medikit_heal_self_bonus_hitpoints = omega arith;
  field_ration_eat_cost = omega arith;
  field_ration_bonus_action_points = omega arith;
}

abbrev pub sniper_at : ℤ → ℤ → Trooper
sniper_at x y = record {
  unit = record { id = pos 1; x = x; y = y };
  player_id = pos 1;
  teammate_index = pos 0;
  teammate = true;
  type = sniper;
  stance = standing;
  hitpoints = pos 90;
  maximal_hitpoints = pos 100;
  action_points = pos 10;
  initial_action_points = pos 10;
  vision_range = 0;
  shooting_range = 0;
  shoot_cost = pos 9;
  standing_damage = pos 65;
  kneeling_damage = pos 80;
  prone_damage = pos 95;
  damage = pos 65;
  holding_grenade = false;
  holding_medikit = true;
  holding_field_ration = false;
}

pub sniper-TrooperFits : TrooperFits (sniper_at (pos 0) (pos 0))
sniper-TrooperFits = record {
  id = omega arith;
  x = omega arith;
  y = omega arith;
  player_id = omega arith;
  teammate_index = omega arith;
  type = (omega arith, refl);
  stance = (omega arith, refl);
  hitpoints = omega arith;
  maximal_hitpoints = omega arith;
  action_points = omega arith;
  initial_action_points = omega arith;
  vision_range = omega arith;
  shooting_range = omega arith;
  shoot_cost = omega arith;
  standing_damage = omega arith;
  kneeling_damage = omega arith;
  prone_damage = omega arith;
  damage = omega arith;
}
