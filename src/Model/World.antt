-- ===== src/Model/World.antt =====
-- model/World.h, model/World.cpp and model/PlayerContext.h. The client keeps the cells and the
-- visibilities alive and never changes them, so the world's pointers to them are the values.
pub mod Visible
pub mod Methods
pub mod ContextMethods
use russian_ai_cup.Base.{
  zero, suc, ℤ, pos, negsuc, ◌+ℤ◌, ◌*ℤ◌, min_ℤ, Bool, false, ◌&&◌, none, some, List, get_elem?,
}
use russian_ai_cup.Model.Double.{Double, Fpu}
use russian_ai_cup.Model.Units.{Bonus, Player, square_distance}
use russian_ai_cup.Model.Trooper.{Trooper, TrooperStance, stance_count, trooper_stance_code}

pub data CellType : Type 0 where
  unknown_cell free low_cover medium_cover high_cover : CellType
  unnamed_cell : ℤ → CellType

abbrev pub cell_type_code : CellType → ℤ
cell_type_code unknown_cell = negsuc 0
cell_type_code free = pos 0
cell_type_code low_cover = pos 1
cell_type_code medium_cover = pos 2
cell_type_code high_cover = pos 3
cell_type_code (unnamed_cell n) = n

abbrev pub cell_type_of : ℤ → CellType
cell_type_of (pos zero) = free
cell_type_of (pos (suc zero)) = low_cover
cell_type_of (pos (suc (suc zero))) = medium_cover
cell_type_of (pos (suc (suc (suc zero)))) = high_cover
cell_type_of (negsuc zero) = unknown_cell
cell_type_of n = unnamed_cell n

abbrev pub Cells : Type 0
Cells = List (List CellType)

pub record World : Type 0 where
  pub move_index : ℤ
  pub width : ℤ
  pub height : ℤ
  pub players : List Player
  pub troopers : List Trooper
  pub bonuses : List Bonus
  pub cells : Cells
  pub cell_visibilities : List Bool

-- `v[i]` of a vector<bool>. A read out of range is undefined in C++; here it is `false`. The
-- reads for two cells of the board and one of the three stances are in range if the vector has the
-- size of the board, which `Strategy.Search.Whole` asks for.
abbrev pub bit_at : List Bool → ℤ → Bool
bit_at bits (pos i) = elim (get_elem? bits i) [ some b ↦ b | none ↦ false ]
bit_at bits (negsuc _) = false

-- The index into `cellVisibilities` that World::isVisible computes.
unfoldable pub visibility_index : ℤ → ℤ → ℤ → ℤ → ℤ → ℤ → ℤ → ℤ
visibility_index width height viewer_x viewer_y object_x object_y min_stance_index =
    let count = trooper_stance_code stance_count in
    viewer_x *ℤ height *ℤ width *ℤ height *ℤ count
    +ℤ viewer_y *ℤ width *ℤ height *ℤ count
    +ℤ object_x *ℤ height *ℤ count
    +ℤ object_y *ℤ count
    +ℤ min_stance_index

-- World::isVisible. `&&` reads the vector only if the range test holds.
unfoldable pub is_visible :
    Fpu → World → Double → ℤ → ℤ → TrooperStance → ℤ → ℤ → TrooperStance → Bool
unfolding square_distance visibility_index
is_visible fpu w max_range viewer_x viewer_y viewer_stance object_x object_y object_stance =
    let min_stance_index =
      min_ℤ (trooper_stance_code viewer_stance) (trooper_stance_code object_stance) in
    fpu.le (fpu.of_int (square_distance viewer_x viewer_y object_x object_y))
      (fpu.mul max_range max_range)
    && bit_at w.cell_visibilities
        (visibility_index w.width w.height viewer_x viewer_y object_x object_y min_stance_index)

pub record PlayerContext : Type 0 where
  pub trooper : Trooper
  pub world : World
