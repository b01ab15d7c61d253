-- ===== src/Client/Messages.antt =====
-- The messages of RemoteProcessClient.cpp: the connection, the handshake, one turn, a move.
use russian_ai_cup.Base.{
  ℕ, zero, suc, ℤ, pos, ◌^◌, of_signed, to_signed, ◌==ℤ◌, Option, none, some, true, List,
  if◌then◌else◌,
}
use russian_ai_cup.Model.Game.{Game, make_game}
use russian_ai_cup.Model.Move.{Move, action_type_code, direction_code}
use russian_ai_cup.Model.World.{PlayerContext}
use russian_ai_cup.Model.Move.Methods.{get_action, get_direction, get_x, get_y}
use russian_ai_cup.Model.World.ContextMethods.{make_player_context}
use russian_ai_cup.Client.Monad.{
  Platform, Client, Result, ok, exit, Action, pure, fail, ◌>>=◌, ◌>>◌,
}
use russian_ai_cup.Client.Scalars.{
  read_enum, write_enum, read_boolean, write_boolean, read_int, write_int, read_double,
  write_string,
}
use russian_ai_cup.Client.Units.{expect_present, read_trooper}
use russian_ai_cup.Client.Terrain.{read_world}

pub data MessageType : Type 0 where
  unknown_message game_over authentication_token team_size protocol_version : MessageType
  game_context player_context move_message : MessageType
  unnamed_message : ℤ → MessageType

abbrev pub message_type_code : MessageType → ℤ
message_type_code unknown_message = pos 0
message_type_code game_over = pos 1
message_type_code authentication_token = pos 2
message_type_code team_size = pos 3
message_type_code protocol_version = pos 4
message_type_code game_context = pos 5
message_type_code player_context = pos 6
message_type_code move_message = pos 7
message_type_code (unnamed_message n) = n

-- The cast of a byte to the enum.
abbrev pub message_type_of : ℤ → MessageType
message_type_of (pos zero) = unknown_message
message_type_of (pos (suc zero)) = game_over
message_type_of (pos (suc (suc zero))) = authentication_token
message_type_of (pos (suc (suc (suc zero)))) = team_size
message_type_of (pos (suc (suc (suc (suc zero))))) = protocol_version
message_type_of (pos (suc (suc (suc (suc (suc zero)))))) = game_context
message_type_of (pos (suc (suc (suc (suc (suc (suc zero))))))) = player_context
message_type_of (pos (suc (suc (suc (suc (suc (suc (suc zero)))))))) = move_message
message_type_of n = unnamed_message n

module _ {S : Type 0} (p : Platform S) where
  -- The constructor: the port is cast to int16.
  unfoldable pub connect : List ℕ → ℤ → S → Result (Unit {0}) × Client S
  connect host port s =
      let port16 = to_signed (2 ^ 16) (of_signed (2 ^ 16) port) in
      let (opened, s') = p.open_socket host port16 s in
      (
        if opened then ok tt else exit 10001,
        record { socket = s'; caches = record { cells = none; cell_visibilities = none } },
      )

  unfoldable pub ensure_message_type : MessageType → MessageType → Action S (Unit {0})
  ensure_message_type actual_type expected_type =
      if message_type_code actual_type ==ℤ message_type_code expected_type
      then pure tt
      else fail (exit 10011)

  unfoldable pub read_message_type : Action S MessageType
  read_message_type = do code ← read_enum p; pure (message_type_of code)

  unfoldable pub write_token : List ℕ → Action S (Unit {0})
  write_token token = do write_enum p (message_type_code authentication_token); write_string p token

  unfoldable pub read_team_size : Action S ℤ
  unfolding read_message_type
  read_team_size = do type ← read_message_type; ensure_message_type type team_size; read_int p

  unfoldable pub write_protocol_version : Action S (Unit {0})
  write_protocol_version = do write_enum p (message_type_code protocol_version); write_int p (pos 2)

  unfoldable pub read_game_context : Action S Game
  unfolding read_message_type
  read_game_context = do
    type ← read_message_type
    ensure_message_type type game_context
    expect_present p 10017
    move_count ← read_int p
    last_player_elimination_score ← read_int p
    player_elimination_score ← read_int p
    trooper_elimination_score ← read_int p
    trooper_damage_score_factor ← read_double p
    stance_change_cost ← read_int p
    standing_move_cost ← read_int p
    kneeling_move_cost ← read_int p
    prone_move_cost ← read_int p
    commander_aura_bonus_action_points ← read_int p
    commander_aura_range ← read_double p
    commander_request_enemy_disposition_cost ← read_int p
    commander_request_enemy_disposition_max_offset ← read_int p
    field_medic_heal_cost ← read_int p
    field_medic_heal_bonus_hitpoints ← read_int p
    field_medic_heal_self_bonus_hitpoints ← read_int p
    sniper_standing_stealth_bonus ← read_double p
    sniper_kneeling_stealth_bonus ← read_double p
    sniper_prone_stealth_bonus ← read_double p
    sniper_standing_shooting_range_bonus ← read_double p
    sniper_kneeling_shooting_range_bonus ← read_double p
    sniper_prone_shooting_range_bonus ← read_double p
    scout_stealth_bonus_negation ← read_double p
    grenade_throw_cost ← read_int p
    grenade_throw_range ← read_double p
    grenade_direct_damage ← read_int p
    grenade_collateral_damage ← read_int p
    medikit_use_cost ← read_int p
    medikit_bonus_hitpoints ← read_int p
    medikit_heal_self_bonus_hitpoints ← read_int p
    field_ration_eat_cost ← read_int p
    field_ration_bonus_action_points ← read_int p
    pure (
        make_game move_count last_player_elimination_score player_elimination_score
          trooper_elimination_score trooper_damage_score_factor stance_change_cost
          standing_move_cost kneeling_move_cost prone_move_cost commander_aura_bonus_action_points
          commander_aura_range commander_request_enemy_disposition_cost
          commander_request_enemy_disposition_max_offset field_medic_heal_cost
          field_medic_heal_bonus_hitpoints field_medic_heal_self_bonus_hitpoints
          sniper_standing_stealth_bonus sniper_kneeling_stealth_bonus sniper_prone_stealth_bonus
          sniper_standing_shooting_range_bonus sniper_kneeling_shooting_range_bonus
          sniper_prone_shooting_range_bonus scout_stealth_bonus_negation grenade_throw_cost
          grenade_throw_range grenade_direct_damage grenade_collateral_damage medikit_use_cost
          medikit_bonus_hitpoints medikit_heal_self_bonus_hitpoints field_ration_eat_cost
          field_ration_bonus_action_points)

  -- The trooper and the world of a turn, once the type and the flag are read.
  unfoldable pub read_turn : Action S (Option PlayerContext)
  read_turn = do
    trooper ← read_trooper p
    world ← read_world p
    pure (some (make_player_context trooper world))

  -- `none` is `NULL`: the game is over, or the server has no turn for the strategy.
  unfoldable pub read_player_context : Action S (Option PlayerContext)
  unfolding read_message_type read_turn
  read_player_context = do
    type ← read_message_type
    if message_type_code type ==ℤ message_type_code game_over then pure none else do
      ensure_message_type type player_context
      present ← read_boolean p
      if present then read_turn else pure none

  unfoldable pub write_move : Move → Action S (Unit {0})
  write_move m = do
    write_enum p (message_type_code move_message)
    write_boolean p true
    write_enum p (action_type_code (get_action m))
    write_enum p (direction_code (get_direction m))
    write_int p (get_x m)
    write_int p (get_y m)

  unfoldable pub close : Action S (Unit {0})
  close c = (ok tt, record c { socket = p.close_socket c.socket })

  -- The destructor, which frees both caches.
  unfoldable pub destroy : Client S → Client S
  destroy c = record c { caches = record { cells = none; cell_visibilities = none } }
