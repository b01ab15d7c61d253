-- ===== src/Client/Wire/World.antt =====
-- The world on the wire. The first world message of a connection carries the terrain, a later one does
-- not.
use russian_ai_cup.Base.{ℕ, ◌≡◌, true, List, [], ◌∷◌, concat, length, none, some}
use russian_ai_cup.Model.Trooper.{Trooper}
use russian_ai_cup.Model.Units.{Player, Bonus}
use russian_ai_cup.Model.World.{World}
use russian_ai_cup.Client.Monad.{Platform, Caches}
use russian_ai_cup.Client.Units.{
  read_players, read_troopers, read_bonuses, read_player, read_trooper, read_bonus,
}
use russian_ai_cup.Client.Terrain.{read_world}
use russian_ai_cup.Client.Stream.{IsStream}
use russian_ai_cup.Client.Takes.{Takes, pure-Takes, ◌into◌then◌}
use russian_ai_cup.Client.Wire.Scalars.{IsInt, print_boolean, print_int, read_int-Takes}
use russian_ai_cup.Client.Wire.Units.{
  print_list, ListFits, repeat-Takes, read_count-Takes, expect_present-Takes, TrooperFits,
  BonusFits, PlayerFits, print_trooper, print_bonus, print_player, read_trooper-Takes,
  read_bonus-Takes, read_player-Takes,
}
use russian_ai_cup.Client.Wire.Terrain.{
  print_cells, CellsFit, print_visibilities, VisibilitiesFit, read_cells-fresh, read_cells-cached,
  read_visibilities-fresh, read_visibilities-cached,
}

-- The part of a world message that every turn carries, before `terrain`.
unfoldable pub print_world : World → List (List ℕ) → List ℕ
print_world w terrain = concat (
    print_boolean true
    ∷ print_int w.move_index
    ∷ print_int w.width
    ∷ print_int w.height
    ∷ print_list print_player w.players
    ∷ print_list print_trooper w.troopers
    ∷ print_list print_bonus w.bonuses
    ∷ terrain)

pub record WorldFits (w : World) : Type 0 where
  pub move_index : IsInt w.move_index
  pub width : IsInt w.width
  pub height : IsInt w.height
  pub players : ListFits PlayerFits w.players
  pub troopers : ListFits TrooperFits w.troopers
  pub bonuses : ListFits BonusFits w.bonuses

-- The caches of a new client, and those that hold a world's terrain.
abbrev pub no_caches : Caches
no_caches = record { cells = none; cell_visibilities = none }

abbrev pub terrain_of : World → Caches
terrain_of w = record { cells = some w.cells; cell_visibilities = some w.cell_visibilities }

module _ {S : Type 0} {p : Platform S} (net : IsStream p) (little : p.little_endian ≡ true) where
  pub read_players-Takes :
      (xs : List Player) (k : Caches)
      → ListFits PlayerFits xs
      → Takes net (read_players p) k (print_list print_player xs) xs k
  unfolding read_players
  read_players-Takes xs k h =
      read_count-Takes net little 10003 (length xs) k h.0
      into _ then
        repeat-Takes net PlayerFits print_player (read_player p) k
          (λ a f. read_player-Takes net little a k f) xs h.1

  pub read_troopers-Takes :
      (xs : List Trooper) (k : Caches)
      → ListFits TrooperFits xs
      → Takes net (read_troopers p) k (print_list print_trooper xs) xs k
  unfolding read_troopers
  read_troopers-Takes xs k h =
      read_count-Takes net little 10005 (length xs) k h.0
      into _ then
        repeat-Takes net TrooperFits print_trooper (read_trooper p) k
          (λ a f. read_trooper-Takes net little a k f) xs h.1

  pub read_bonuses-Takes :
      (xs : List Bonus) (k : Caches)
      → ListFits BonusFits xs
      → Takes net (read_bonuses p) k (print_list print_bonus xs) xs k
  unfolding read_bonuses
  read_bonuses-Takes xs k h =
      read_count-Takes net little 10009 (length xs) k h.0
      into _ then
        repeat-Takes net BonusFits print_bonus (read_bonus p) k
          (λ a f. read_bonus-Takes net little a k f) xs h.1

  -- On a little-endian machine with a stream for a socket: readWorld of a new client takes exactly
  -- the message that prints a world and its terrain, returns the world and keeps the terrain; on a
  -- stream that ends inside the message it ends the process by exit(10012). The numbers must fit
  -- their fields.
  pub read_world-first :
      (w : World) (width height stances : ℕ)
      → WorldFits w
      → CellsFit w.cells
      → VisibilitiesFit width height stances w.cell_visibilities
      → Takes net
          (read_world p)
          no_caches
          (print_world w (
            print_cells w.cells ∷ print_visibilities width height stances w.cell_visibilities ∷ []))
          w
          (terrain_of w)
  unfolding read_world print_world
  read_world-first w width height stances h hc hv =
      expect_present-Takes net little 10002 no_caches
      into _ then read_int-Takes net little w.move_index no_caches h.move_index
      into _ then read_int-Takes net little w.width no_caches h.width
      into _ then read_int-Takes net little w.height no_caches h.height
      into _ then read_players-Takes w.players no_caches h.players
      into _ then read_troopers-Takes w.troopers no_caches h.troopers
      into _ then read_bonuses-Takes w.bonuses no_caches h.bonuses
      into _ then read_cells-fresh net little none w.cells hc
      into _ then
        read_visibilities-fresh net little (some w.cells) width height stances w.cell_visibilities
          hv
      into _ then pure-Takes net w (terrain_of w)

  -- On a little-endian machine with a stream for a socket: readWorld of a client that has kept the
  -- terrain takes exactly a message that prints a world without terrain, and returns the world with
  -- the kept terrain; on a stream that ends inside the message it ends the process by exit(10012).
  -- The numbers must fit their fields.
  pub read_world-later :
      (w : World)
      → WorldFits w
      → Takes net (read_world p) (terrain_of w) (print_world w []) w (terrain_of w)
  unfolding read_world print_world
  read_world-later w h =
      let k = terrain_of w in
      expect_present-Takes net little 10002 k
      into _ then read_int-Takes net little w.move_index k h.move_index
      into _ then read_int-Takes net little w.width k h.width
      into _ then read_int-Takes net little w.height k h.height
      into _ then read_players-Takes w.players k h.players
      into _ then read_troopers-Takes w.troopers k h.troopers
      into _ then read_bonuses-Takes w.bonuses k h.bonuses
      into _ then read_cells-cached net little (some w.cell_visibilities) w.cells
      into _ then read_visibilities-cached net little (some w.cells) w.cell_visibilities
      into _ then pure-Takes net w k
