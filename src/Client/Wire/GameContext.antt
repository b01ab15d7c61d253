-- ===== src/Client/Wire/GameContext.antt =====
-- The game's constants on the wire.
use russian_ai_cup.Base.{ℕ, true, List, [], ◌∷◌, concat}
use russian_ai_cup.Model.Game.{Game}
use russian_ai_cup.Client.Messages.{MessageType, message_type_code, game_context}
use russian_ai_cup.Client.Wire.Scalars.{
  IsInt, IsDouble, print_enum, print_boolean, print_int, print_double,
}

abbrev pub print_type : MessageType → List ℕ
print_type type = print_enum (message_type_code type)

-- The constants of the game that their wire form can carry.
pub record GameFits (g : Game) : Type 0 where
  pub move_count : IsInt g.move_count
  pub last_player_elimination_score : IsInt g.last_player_elimination_score
  pub player_elimination_score : IsInt g.player_elimination_score
  pub trooper_elimination_score : IsInt g.trooper_elimination_score
  pub trooper_damage_score_factor : IsDouble g.trooper_damage_score_factor
  pub stance_change_cost : IsInt g.stance_change_cost
  pub standing_move_cost : IsInt g.standing_move_cost
  pub kneeling_move_cost : IsInt g.kneeling_move_cost
  pub prone_move_cost : IsInt g.prone_move_cost
  pub commander_aura_bonus_action_points : IsInt g.commander_aura_bonus_action_points
  pub commander_aura_range : IsDouble g.commander_aura_range
  pub commander_request_enemy_disposition_cost : IsInt g.commander_request_enemy_disposition_cost
  pub commander_request_enemy_disposition_max_offset :
      IsInt g.commander_request_enemy_disposition_max_offset
  pub field_medic_heal_cost : IsInt g.field_medic_heal_cost
  pub field_medic_heal_bonus_hitpoints : IsInt g.field_medic_heal_bonus_hitpoints
  pub field_medic_heal_self_bonus_hitpoints : IsInt g.field_medic_heal_self_bonus_hitpoints
  pub sniper_standing_stealth_bonus : IsDouble g.sniper_standing_stealth_bonus
  pub sniper_kneeling_stealth_bonus : IsDouble g.sniper_kneeling_stealth_bonus
  pub sniper_prone_stealth_bonus : IsDouble g.sniper_prone_stealth_bonus
  pub sniper_standing_shooting_range_bonus : IsDouble g.sniper_standing_shooting_range_bonus
  pub sniper_kneeling_shooting_range_bonus : IsDouble g.sniper_kneeling_shooting_range_bonus
  pub sniper_prone_shooting_range_bonus : IsDouble g.sniper_prone_shooting_range_bonus
  pub scout_stealth_bonus_negation : IsDouble g.scout_stealth_bonus_negation
  pub grenade_throw_cost : IsInt g.grenade_throw_cost
  pub grenade_throw_range : IsDouble g.grenade_throw_range
  pub grenade_direct_damage : IsInt g.grenade_direct_damage
  pub grenade_collateral_damage : IsInt g.grenade_collateral_damage
  pub medikit_use_cost : IsInt g.medikit_use_cost
  pub medikit_bonus_hitpoints : IsInt g.medikit_bonus_hitpoints
  pub medikit_heal_self_bonus_hitpoints : IsInt g.medikit_heal_self_bonus_hitpoints
  pub field_ration_eat_cost : IsInt g.field_ration_eat_cost
  pub field_ration_bonus_action_points : IsInt g.field_ration_bonus_action_points

unfoldable pub print_game_context : Game → List ℕ
print_game_context g = concat (
    print_type game_context
    ∷ print_boolean true
    ∷ print_int g.move_count
    ∷ print_int g.last_player_elimination_score
    ∷ print_int g.player_elimination_score
    ∷ print_int g.trooper_elimination_score
    ∷ print_double g.trooper_damage_score_factor
    ∷ print_int g.stance_change_cost
    ∷ print_int g.standing_move_cost
    ∷ print_int g.kneeling_move_cost
    ∷ print_int g.prone_move_cost
    ∷ print_int g.commander_aura_bonus_action_points
    ∷ print_double g.commander_aura_range
    ∷ print_int g.commander_request_enemy_disposition_cost
    ∷ print_int g.commander_request_enemy_disposition_max_offset
    ∷ print_int g.field_medic_heal_cost
    ∷ print_int g.field_medic_heal_bonus_hitpoints
    ∷ print_int g.field_medic_heal_self_bonus_hitpoints
    ∷ print_double g.sniper_standing_stealth_bonus
    ∷ print_double g.sniper_kneeling_stealth_bonus
    ∷ print_double g.sniper_prone_stealth_bonus
    ∷ print_double g.sniper_standing_shooting_range_bonus
    ∷ print_double g.sniper_kneeling_shooting_range_bonus
    ∷ print_double g.sniper_prone_shooting_range_bonus
    ∷ print_double g.scout_stealth_bonus_negation
    ∷ print_int g.grenade_throw_cost
    ∷ print_double g.grenade_throw_range
    ∷ print_int g.grenade_direct_damage
    ∷ print_int g.grenade_collateral_damage
    ∷ print_int g.medikit_use_cost
    ∷ print_int g.medikit_bonus_hitpoints
    ∷ print_int g.medikit_heal_self_bonus_hitpoints
    ∷ print_int g.field_ration_eat_cost
    ∷ print_int g.field_ration_bonus_action_points
    ∷ [])
