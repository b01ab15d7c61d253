-- ===== src/Tests/Wire.antt =====
-- The messages over the socket of one byte at a time.
use russian_ai_cup.Base.{refl, pos, negsuc, true, false, [], ◌∷◌, ◌++◌, some, arith}
use russian_ai_cup.Model.Move.{Move, move, north}
use russian_ai_cup.Model.World.{World, PlayerContext, free}
use russian_ai_cup.Client.Scalars.{read_string}
use russian_ai_cup.Client.Terrain.{read_world}
use russian_ai_cup.Client.Messages.{
  read_game_context, read_player_context, write_move, write_token, authentication_token,
}
use russian_ai_cup.Client.Takes.{Takes}
use russian_ai_cup.Client.Output.{Writes}
use russian_ai_cup.Client.Wire.Scalars.{print_string, read_string-Takes}
use russian_ai_cup.Client.Wire.Terrain.{print_cells, print_visibilities, CellsFit, VisibilitiesFit}
use russian_ai_cup.Client.Wire.World.{
  WorldFits, print_world, no_caches, terrain_of, read_world-first, read_world-later,
}
use russian_ai_cup.Client.Wire.Messages.{
  print_player_context, print_terrain, read_game_context-Takes, read_player_context-first,
  read_player_context-later,
}
use russian_ai_cup.Client.Wire.GameContext.{print_type, print_game_context}
use russian_ai_cup.Client.Wire.Output.{print_move, write_move-Writes, write_token-Writes}
use russian_ai_cup.Tests.Socket.{drip, drip-IsStream}
use russian_ai_cup.Tests.Samples.{rules, rules-GameFits, sniper_at, sniper-TrooperFits}

-- One sniper on a board of one cell.
abbrev pub tiny : World
tiny = record {
  move_index = pos 0;
  width = pos 1;
  height = pos 1;
  players = [];
  troopers = sniper_at (pos 0) (pos 0) ∷ [];
  bonuses = [];
  cells = (free ∷ []) ∷ [];
  cell_visibilities = true ∷ false ∷ true ∷ [];
}

tiny-WorldFits : WorldFits tiny
tiny-WorldFits = record {
  move_index = omega arith;
  width = omega arith;
  height = omega arith;
  players = (omega arith, tt);
  troopers = (omega arith, (sniper-TrooperFits, tt));
  bonuses = (omega arith, tt);
}

tiny-CellsFit : CellsFit tiny.cells
tiny-CellsFit = (omega arith, ((omega arith, ((omega arith, refl), tt)), tt))

tiny-VisibilitiesFit : VisibilitiesFit 1 1 3 tiny.cell_visibilities
tiny-VisibilitiesFit = record {
  width_fits = omega arith;
  height_fits = omega arith;
  stances_fit = omega arith;
  product2 = omega arith;
  product3 = omega arith;
  product4 = omega arith;
  product5 = omega arith;
  size = refl;
}

read_world-first_example :
    Takes drip-IsStream
      (read_world drip)
      no_caches
      (print_world tiny
        (print_cells tiny.cells ∷ print_visibilities 1 1 3 tiny.cell_visibilities ∷ []))
      tiny
      (terrain_of tiny)
read_world-first_example =
    read_world-first drip-IsStream refl tiny 1 1 3 tiny-WorldFits tiny-CellsFit tiny-VisibilitiesFit

read_world-later_example :
    Takes drip-IsStream
      (read_world drip)
      (terrain_of tiny)
      (print_world tiny [])
      tiny
      (terrain_of tiny)
read_world-later_example = read_world-later drip-IsStream refl tiny tiny-WorldFits

abbrev pub context : PlayerContext
context = record { trooper = sniper_at (pos 0) (pos 0); world = tiny }

read_player_context-first_example :
    Takes drip-IsStream
      (read_player_context drip)
      no_caches
      (print_player_context context (print_terrain tiny 1 1 3))
      (some context)
      (terrain_of tiny)
read_player_context-first_example =
    read_player_context-first drip-IsStream refl context 1 1 3 sniper-TrooperFits tiny-WorldFits
      tiny-CellsFit tiny-VisibilitiesFit

read_player_context-later_example :
    Takes drip-IsStream
      (read_player_context drip)
      (terrain_of tiny)
      (print_player_context context [])
      (some context)
      (terrain_of tiny)
read_player_context-later_example =
    read_player_context-later drip-IsStream refl context sniper-TrooperFits tiny-WorldFits

read_game_context-Takes_example :
    Takes drip-IsStream
      (read_game_context drip)
      no_caches
      (print_game_context rules)
      rules
      no_caches
read_game_context-Takes_example =
    read_game_context-Takes drip-IsStream refl rules no_caches rules-GameFits

read_string-Takes_example :
    Takes drip-IsStream
      (read_string drip)
      no_caches
      (print_string (104 ∷ 105 ∷ []))
      (104 ∷ 105 ∷ [])
      no_caches
read_string-Takes_example =
    read_string-Takes drip-IsStream refl (104 ∷ 105 ∷ []) no_caches (omega arith)

abbrev pub step_north : Move
step_north = record { action = move; direction = north; x = negsuc 0; y = pos 4 }

write_move-Writes_example :
    Writes drip-IsStream (write_move drip step_north) (print_move step_north)
write_move-Writes_example = write_move-Writes drip-IsStream refl step_north

write_token-Writes_example :
    Writes drip-IsStream
      (write_token drip (48 ∷ 48 ∷ []))
      (print_type authentication_token ++ print_string (48 ∷ 48 ∷ []))
write_token-Writes_example = write_token-Writes drip-IsStream refl (48 ∷ 48 ∷ []) (omega arith)
