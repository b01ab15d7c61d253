-- ===== src/Model/World/Methods.antt =====
-- The constructor and the methods of the class World (model/World.cpp).
use russian_ai_cup.Base.{Bool, List, ℤ}
use russian_ai_cup.Model.Trooper.{Trooper}
use russian_ai_cup.Model.Units.{Bonus, Player}
use russian_ai_cup.Model.World.{Cells, World}

-- World::World(...)
abbrev pub make_world :
    ℤ → ℤ → ℤ → List Player → List Trooper → List Bonus → Cells → List Bool → World
make_world move_index width height players troopers bonuses cells cell_visibilities = record {
  move_index = move_index;
  width = width;
  height = height;
  players = players;
  troopers = troopers;
  bonuses = bonuses;
  cells = cells;
  cell_visibilities = cell_visibilities;
}

abbrev pub get_move_index : World → ℤ
get_move_index w = w.move_index

abbrev pub get_width : World → ℤ
get_width w = w.width

abbrev pub get_height : World → ℤ
get_height w = w.height

abbrev pub get_players : World → List Player
get_players w = w.players

abbrev pub get_troopers : World → List Trooper
get_troopers w = w.troopers

abbrev pub get_bonuses : World → List Bonus
get_bonuses w = w.bonuses

abbrev pub get_cells : World → Cells
get_cells w = w.cells

abbrev pub get_cell_visibilities : World → List Bool
get_cell_visibilities w = w.cell_visibilities
