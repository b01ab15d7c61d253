-- ===== src/Client/Wire/Messages.antt =====
-- Whole messages on the wire, and the methods that meet them.
use russian_ai_cup.Base.{
  ℕ, ◌≡◌, refl, ℤ, true, false, List, [], ◌∷◌, ◌++◌, concat, none, some, arith,
}
use russian_ai_cup.Model.Game.{Game}
use russian_ai_cup.Model.World.{World, PlayerContext}
use russian_ai_cup.Client.Monad.{Platform, Caches}
use russian_ai_cup.Client.Messages.{
  MessageType, message_type_code, message_type_of, game_over, team_size, game_context,
  player_context, ensure_message_type, read_message_type, read_team_size, read_game_context,
  read_player_context,
}
use russian_ai_cup.Client.Terrain.{read_world}
use russian_ai_cup.Client.Stream.{IsStream}
use russian_ai_cup.Client.Takes.{Takes, Takes-nil, Takes-map, pure-Takes, ◌into◌then◌}
use russian_ai_cup.Client.Wire.Scalars.{
  IsInt, IsEnum, print_boolean, print_int, read_enum-Takes, read_boolean-Takes, read_int-Takes,
  read_double-Takes,
}
use russian_ai_cup.Client.Wire.Units.{
  TrooperFits, print_trooper, read_trooper-Takes, expect_present-Takes,
}
use russian_ai_cup.Client.Wire.Terrain.{print_cells, CellsFit, print_visibilities, VisibilitiesFit}
use russian_ai_cup.Client.Wire.World.{
  WorldFits, print_world, no_caches, terrain_of, read_world-first, read_world-later,
}
use russian_ai_cup.Client.Wire.GameContext.{print_type, GameFits, print_game_context}

-- A turn: the message's type, a flag, the trooper to move and the world.
unfoldable pub print_player_context : PlayerContext → List (List ℕ) → List ℕ
print_player_context c terrain = concat (
    print_type player_context
    ∷ print_boolean true
    ∷ print_trooper c.trooper
    ∷ print_world c.world terrain
    ∷ [])

-- The terrain as the first world message carries it.
abbrev pub print_terrain : World → ℕ → ℕ → ℕ → List (List ℕ)
print_terrain w width height stances =
    print_cells w.cells ∷ print_visibilities width height stances w.cell_visibilities ∷ []

module _ {S : Type 0} {p : Platform S} (net : IsStream p) (little : p.little_endian ≡ true) where
  -- The types of the messages that the server sends.
  pub read_message_type-Takes :
      (type : MessageType) (k : Caches)
      → IsEnum message_type_code message_type_of type
      → Takes net (read_message_type p) k (print_type type) type k
  unfolding read_message_type
  read_message_type-Takes type k h =
      Takes-map (read_enum-Takes net little (message_type_code type) k h.0) _ h.1

  -- On a little-endian machine with a stream for a socket: readTeamSize takes exactly its message
  -- (the type, then a number that an int holds) and returns the number; on a stream that ends inside
  -- it the process ends by exit(10012).
  pub read_team_size-Takes :
      (n : ℤ) (k : Caches)
      → IsInt n
      → Takes net (read_team_size p) k (print_type team_size ++ print_int n) n k
  unfolding read_team_size ensure_message_type
  read_team_size-Takes n k h =
      read_message_type-Takes team_size k (omega arith, refl)
      into _ then pure-Takes net tt k
      into _ then read_int-Takes net little n k h

  -- On a little-endian machine with a stream for a socket: readGameContext takes exactly the message
  -- that prints the game's constants and returns each in its place; on a stream that ends inside the
  -- message it ends the process by exit(10012). The constants must fit their fields.
  pub read_game_context-Takes :
      (g : Game) (k : Caches)
      → GameFits g
      → Takes net (read_game_context p) k (print_game_context g) g k
  unfolding read_game_context print_game_context ensure_message_type
  read_game_context-Takes g k h =
      read_message_type-Takes game_context k (omega arith, refl)
      into _ then pure-Takes net tt k
      into _ then expect_present-Takes net little 10017 k
      into _ then read_int-Takes net little g.move_count k h.move_count
      into _ then
        read_int-Takes net little g.last_player_elimination_score k h.last_player_elimination_score
      into _ then read_int-Takes net little g.player_elimination_score k h.player_elimination_score
      into _ then
        read_int-Takes net little g.trooper_elimination_score k h.trooper_elimination_score
      into _ then
        read_double-Takes net little g.trooper_damage_score_factor k h.trooper_damage_score_factor
      into _ then read_int-Takes net little g.stance_change_cost k h.stance_change_cost
      into _ then read_int-Takes net little g.standing_move_cost k h.standing_move_cost
      into _ then read_int-Takes net little g.kneeling_move_cost k h.kneeling_move_cost
      into _ then read_int-Takes net little g.prone_move_cost k h.prone_move_cost
      into _ then
        read_int-Takes net little g.commander_aura_bonus_action_points k
          h.commander_aura_bonus_action_points
      into _ then read_double-Takes net little g.commander_aura_range k h.commander_aura_range
      into _ then
        read_int-Takes net little g.commander_request_enemy_disposition_cost k
          h.commander_request_enemy_disposition_cost
      into _ then
        read_int-Takes net little g.commander_request_enemy_disposition_max_offset k
          h.commander_request_enemy_disposition_max_offset
      into _ then read_int-Takes net little g.field_medic_heal_cost k h.field_medic_heal_cost
      into _ then
        read_int-Takes net little g.field_medic_heal_bonus_hitpoints k
          h.field_medic_heal_bonus_hitpoints
      into _ then
        read_int-Takes net little g.field_medic_heal_self_bonus_hitpoints k
          h.field_medic_heal_self_bonus_hitpoints
      into _ then
        read_double-Takes net little g.sniper_standing_stealth_bonus k
          h.sniper_standing_stealth_bonus
      into _ then
        read_double-Takes net little g.sniper_kneeling_stealth_bonus k
          h.sniper_kneeling_stealth_bonus
      into _ then
        read_double-Takes net little g.sniper_prone_stealth_bonus k h.sniper_prone_stealth_bonus
      into _ then
        read_double-Takes net little g.sniper_standing_shooting_range_bonus k
          h.sniper_standing_shooting_range_bonus
      into _ then
        read_double-Takes net little g.sniper_kneeling_shooting_range_bonus k
          h.sniper_kneeling_shooting_range_bonus
      into _ then
        read_double-Takes net little g.sniper_prone_shooting_range_bonus k
          h.sniper_prone_shooting_range_bonus
      into _ then
        read_double-Takes net little g.scout_stealth_bonus_negation k h.scout_stealth_bonus_negation
      into _ then read_int-Takes net little g.grenade_throw_cost k h.grenade_throw_cost
      into _ then read_double-Takes net little g.grenade_throw_range k h.grenade_throw_range
      into _ then read_int-Takes net little g.grenade_direct_damage k h.grenade_direct_damage
      into _ then
        read_int-Takes net little g.grenade_collateral_damage k h.grenade_collateral_damage
      into _ then read_int-Takes net little g.medikit_use_cost k h.medikit_use_cost
      into _ then read_int-Takes net little g.medikit_bonus_hitpoints k h.medikit_bonus_hitpoints
      into _ then
        read_int-Takes net little g.medikit_heal_self_bonus_hitpoints k
          h.medikit_heal_self_bonus_hitpoints
      into _ then read_int-Takes net little g.field_ration_eat_cost k h.field_ration_eat_cost
      into _ then
        read_int-Takes net little g.field_ration_bonus_action_points k
          h.field_ration_bonus_action_points
      into _ then pure-Takes net g k

  -- On a game-over message readPlayerContext takes the one byte of its type and returns NULL; on a
  -- stream that has ended it ends the process by exit(10012).
  pub read_player_context-over :
      (k : Caches) → Takes net (read_player_context p) k (print_type game_over) none k
  unfolding read_player_context
  read_player_context-over k =
      Takes-nil (print_type game_over)
        (read_message_type-Takes game_over k (omega arith, refl) into _ then pure-Takes net none k)

  pub read_player_context-idle :
      (k : Caches)
      → Takes net
          (read_player_context p)
          k
          (print_type player_context ++ print_boolean false)
          none
          k
  unfolding read_player_context ensure_message_type
  read_player_context-idle k =
      read_message_type-Takes player_context k (omega arith, refl)
      into _ then pure-Takes net tt k
      into _ then
        Takes-nil (print_boolean false)
          (read_boolean-Takes net little false k into _ then pure-Takes net none k)

  -- The rest of a turn, from a reader of the world.
  turn-Takes :
      (c : PlayerContext) (terrain : List (List ℕ)) (k k' : Caches)
      → TrooperFits c.trooper
      → Takes net (read_world p) k (print_world c.world terrain) c.world k'
      → Takes net (read_player_context p) k (print_player_context c terrain) (some c) k'
  unfolding read_player_context print_player_context ensure_message_type
  turn-Takes c terrain k k' h world =
      read_message_type-Takes player_context k (omega arith, refl)
      into _ then pure-Takes net tt k
      into _ then read_boolean-Takes net little true k
      into _ then read_trooper-Takes net little c.trooper k h
      into _ then world
      into _ then pure-Takes net (some c) k'

  -- On a little-endian machine with a stream for a socket: readPlayerContext of a new client takes
  -- exactly the message that prints a trooper, a world and its terrain, whatever follows, and
  -- returns both; it keeps the terrain, and sends nothing. On a stream that ends inside the message
  -- it ends the process by exit(10012). The numbers must fit their fields.
  pub read_player_context-first :
      (c : PlayerContext) (width height stances : ℕ)
      → TrooperFits c.trooper
      → WorldFits c.world
      → CellsFit c.world.cells
      → VisibilitiesFit width height stances c.world.cell_visibilities
      → Takes net
          (read_player_context p)
          no_caches
          (print_player_context c (print_terrain c.world width height stances))
          (some c)
          (terrain_of c.world)
  read_player_context-first c width height stances ht hw hc hv =
      turn-Takes c (print_terrain c.world width height stances) no_caches (terrain_of c.world) ht
        (read_world-first net little c.world width height stances hw hc hv)

  -- On a little-endian machine with a stream for a socket, for a client that has kept the terrain:
  -- readPlayerContext takes exactly a message that prints a trooper and a world without terrain, and
  -- returns both with the kept terrain; on a stream that ends inside the message it ends the process
  -- by exit(10012). The numbers must fit their fields.
  pub read_player_context-later :
      (c : PlayerContext)
      → TrooperFits c.trooper
      → WorldFits c.world
      → Takes net
          (read_player_context p)
          (terrain_of c.world)
          (print_player_context c [])
          (some c)
          (terrain_of c.world)
  read_player_context-later c ht hw =
      turn-Takes c [] (terrain_of c.world) (terrain_of c.world) ht
        (read_world-later net little c.world hw)
