-- ===== src/Client/Wire/Errors/Terrain.antt =====
-- What readCells and readCellVisibilities refuse: negative sizes.
use russian_ai_cup.Base.{ℕ, ◌≡◌, refl, pos, negsuc, true, List, ◌++◌, none, some}
use russian_ai_cup.Model.World.{World, cell_type_code, cell_type_of}
use russian_ai_cup.Client.Monad.{Platform, Caches}
use russian_ai_cup.Client.Terrain.{
  read_cell, read_column, fetch_cells, read_cells, fetch_cell_visibilities, read_cell_visibilities,
}
use russian_ai_cup.Client.Stream.{IsStream}
use russian_ai_cup.Client.Takes.{silent-Takes, ◌into◌then◌}
use russian_ai_cup.Client.Rejects.{Rejects, stops, ◌into◌rejects◌}
use russian_ai_cup.Client.Wire.Scalars.{IsInt, IsEnum, print_int}
use russian_ai_cup.Client.Wire.Units.{print_list, ListFits, read_count-Takes}
use russian_ai_cup.Client.Wire.Terrain.{print_cell, read_cell-Takes, read_column-Takes}
use russian_ai_cup.Client.Wire.World.{no_caches}
use russian_ai_cup.Client.Wire.Errors.{MalformedList, read_count-Rejects, read_list-Rejects}

-- No cell is malformed: an unknown byte is cast to the enum.
pub data MalformedCell : List ℕ → ℕ → Type 0 where

-- A map or a column of a negative size.
abbrev pub MalformedCells : List ℕ → ℕ → Type 0
MalformedCells =
    MalformedList (ListFits (IsEnum cell_type_code cell_type_of)) (print_list print_cell) 10007
      (MalformedList (IsEnum cell_type_code cell_type_of) print_cell 10008 MalformedCell)

-- A negative number among the sizes of the visibilities.
pub data MalformedVisibilities : List ℕ → ℕ → Type 0 where
  negative_width : (n : ℕ) → IsInt (negsuc n) → MalformedVisibilities (print_int (negsuc n)) 10018
  negative_height :
      (width n : ℕ)
      → IsInt (pos width)
      → IsInt (negsuc n)
      → MalformedVisibilities (print_int (pos width) ++ print_int (negsuc n)) 10019
  negative_stances :
      (width height n : ℕ)
      → IsInt (pos width)
      → IsInt (pos height)
      → IsInt (negsuc n)
      → MalformedVisibilities
          (print_int (pos width) ++ (print_int (pos height) ++ print_int (negsuc n)))
          10020

module _ {S : Type 0} {p : Platform S} (net : IsStream p) (little : p.little_endian ≡ true) where
  read_column-Rejects :
      (xs : List ℕ) (code : ℕ)
      → MalformedList (IsEnum cell_type_code cell_type_of) print_cell 10008 MalformedCell xs code
      → Rejects net (read_column p) no_caches xs code
  unfolding read_column
  read_column-Rejects =
      read_list-Rejects net little (IsEnum cell_type_code cell_type_of) print_cell MalformedCell
        (read_cell p) _ 10008 no_caches (read_cell-Takes net little no_caches)
        (λ ys code bad. elim bad [ ]) (λ n xs code r. r)

  pub read_cells-Rejects :
      (xs : List ℕ) (code : ℕ)
      → MalformedCells xs code
      → Rejects net (read_cells p) no_caches xs code
  unfolding read_cells fetch_cells
  read_cells-Rejects xs code bad =
      silent-Takes net {k = no_caches} {a = none} (λ s. refl)
      into _ rejects
        read_list-Rejects net little (ListFits (IsEnum cell_type_code cell_type_of))
          (print_list print_cell)
          (MalformedList (IsEnum cell_type_code cell_type_of) print_cell 10008 MalformedCell)
          (read_column p) _ 10007 no_caches (read_column-Takes net little no_caches)
          read_column-Rejects (λ n xs code r. stops _ r) xs code bad

  fetch_visibilities-Rejects :
      (k : Caches) (xs : List ℕ) (code : ℕ)
      → MalformedVisibilities xs code
      → Rejects net (fetch_cell_visibilities p) k xs code
  unfolding fetch_cell_visibilities
  fetch_visibilities-Rejects k _ _ (negative_width n h) =
      stops _ (read_count-Rejects net little 10018 n k h)
  fetch_visibilities-Rejects k _ _ (negative_height width n hw h) =
      read_count-Takes net little 10018 width k hw
      into _ rejects stops _ (read_count-Rejects net little 10019 n k h)
  fetch_visibilities-Rejects k _ _ (negative_stances width height n hw hh h) =
      read_count-Takes net little 10018 width k hw
      into _ rejects read_count-Takes net little 10019 height k hh
      into _ rejects stops _ (read_count-Rejects net little 10020 n k h)

  pub read_visibilities-Rejects :
      (w : World) (xs : List ℕ) (code : ℕ)
      → MalformedVisibilities xs code
      → Rejects net
          (read_cell_visibilities p)
          (record { cells = some w.cells; cell_visibilities = none })
          xs
          code
  unfolding read_cell_visibilities
  read_visibilities-Rejects w xs code bad =
      let k : Caches = record { cells = some w.cells; cell_visibilities = none } in
      silent-Takes net {k = k} {a = none} (λ s. refl)
      into _ rejects fetch_visibilities-Rejects k xs code bad
