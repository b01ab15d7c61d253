-- ===== src/Client/Wire/Terrain.antt =====
-- The cells and the visibilities on the wire, which only the first world message carries: a later call
-- of readCells or readCellVisibilities answers from the client's caches.
use russian_ai_cup.Base.{
  ℕ, suc, ◌*◌, ◌^◌, ◌<◌, ◌≡◌, refl, ap, ◌∙◌, pos, Bool, true, false, not, Option, none, some, List,
  [], ◌∷◌, ◌++◌, concat, length, lt→ltb, ◌==◌, if◌then◌else◌,
}
use mathlib.Core.List.{map}
use russian_ai_cup.Model.World.{Cells, CellType, cell_type_code, cell_type_of}
use russian_ai_cup.Client.Monad.{Platform, Caches, Action, pure, ◌>>=◌}
use russian_ai_cup.Client.Units.{repeat, read_count}
use russian_ai_cup.Client.Terrain.{
  set_visibilities, int_mul, read_cell, read_column, fetch_cells, read_cells,
  fetch_cell_visibilities, read_cell_visibilities,
}
use russian_ai_cup.Client.Stream.{IsStream}
use russian_ai_cup.Client.Takes.{
  Takes, Takes-nil, Takes-map, silent-Takes, pure-Takes, read_bytes-Takes, ◌into◌then◌,
}
use russian_ai_cup.Client.Wire.Scalars.{IsInt, IsEnum, print_enum, print_int, read_enum-Takes}
use russian_ai_cup.Client.Wire.Units.{print_list, ListFits, repeat-Takes, read_count-Takes}

abbrev pub print_cell : CellType → List ℕ
print_cell c = print_enum (cell_type_code c)

abbrev pub print_cells : Cells → List ℕ
print_cells = print_list (print_list print_cell)

abbrev pub CellsFit : Cells → Type 0
CellsFit = ListFits (ListFits (IsEnum cell_type_code cell_type_of))

abbrev pub bit_byte : Bool → ℕ
bit_byte true = 1
bit_byte false = 0

-- The sizes of the map and the number of stances, then a byte for each pair of cells and stance.
abbrev pub print_visibilities : ℕ → ℕ → ℕ → List Bool → List ℕ
print_visibilities width height stances bits =
    print_int (pos width)
    ++ (print_int (pos height) ++ (print_int (pos stances) ++ map bit_byte bits))

-- The sizes for which `int` holds every product on the way to the number of bytes.
pub record VisibilitiesFit (width height stances : ℕ) (bits : List Bool) : Type 0 where
  pub width_fits : IsInt (pos width)
  pub height_fits : IsInt (pos height)
  pub stances_fit : IsInt (pos stances)
  pub product2 : width * height < 2 ^ 31
  pub product3 : width * height * width < 2 ^ 31
  pub product4 : width * height * width * height < 2 ^ 31
  pub product5 : width * height * width * height * stances < 2 ^ 31
  pub size : length bits ≡ width * height * width * height * stances

bits-bytes : (bits : List Bool) → map (λ (b : ℕ). not (b == 0)) (map bit_byte bits) ≡ bits
bits-bytes [] = refl
bits-bytes (true ∷ bits) = ap (λ (l : List Bool). true ∷ l) (bits-bytes bits)
bits-bytes (false ∷ bits) = ap (λ (l : List Bool). false ∷ l) (bits-bytes bits)

length-bytes : (bits : List Bool) → length (map bit_byte bits) ≡ length bits
length-bytes [] = refl
length-bytes (b ∷ bits) = ap suc (length-bytes bits)

module _ {S : Type 0} {p : Platform S} (net : IsStream p) where
  int_mul-Takes : (a b : ℕ) (k : Caches) → a * b < 2 ^ 31 → Takes net (int_mul a b) k [] (a * b) k
  unfolding int_mul
  int_mul-Takes a b k h = rw (lt→ltb (a * b) (2 ^ 31) h) (pure-Takes net (a * b) k)

module _ {S : Type 0} {p : Platform S} (net : IsStream p) (little : p.little_endian ≡ true) where
  pub read_cell-Takes :
      (k : Caches) (c : CellType)
      → IsEnum cell_type_code cell_type_of c
      → Takes net (read_cell p) k (print_cell c) c k
  unfolding read_cell
  read_cell-Takes k c h = Takes-map (read_enum-Takes net little (cell_type_code c) k h.0) _ h.1

  pub read_list-Takes :
      {A : Type 0} (Fits : A → Type 0) (print : A → List ℕ) (read : Action S A) (code : ℕ)
      (k : Caches)
      → ((a : A) → Fits a → Takes net read k (print a) a k)
      → (xs : List A) → ListFits Fits xs
      → Takes net (read_count p code >>= λ n. repeat n read) k (print_list print xs) xs k
  read_list-Takes Fits print read code k one xs h =
      read_count-Takes net little code (length xs) k h.0 into _
      then repeat-Takes net Fits print read k one xs h.1

  pub read_column-Takes :
      (k : Caches) (column : List CellType)
      → ListFits (IsEnum cell_type_code cell_type_of) column
      → Takes net (read_column p) k (print_list print_cell column) column k
  unfolding read_column
  read_column-Takes k =
      read_list-Takes (IsEnum cell_type_code cell_type_of) print_cell (read_cell p) 10008 k
        (read_cell-Takes k)

  -- The first call of readCells reads the cells and keeps them.
  pub fetch_cells-Takes :
      (k : Caches) (cells : Cells)
      → CellsFit cells
      → Takes net (fetch_cells p) k (print_cells cells) cells (record k { cells = some cells })
  unfolding fetch_cells
  fetch_cells-Takes k cells h =
      read_count-Takes net little 10007 (length cells) k h.0 into _
      then Takes-nil (concat (map (print_list print_cell) cells)) (
          repeat-Takes net (ListFits (IsEnum cell_type_code cell_type_of)) (print_list print_cell)
              (read_column p) k (read_column-Takes k) cells h.1
            into _
          then silent-Takes net {k' = record k { cells = some cells }} {a = tt} (λ s. refl) into _
          then pure-Takes net cells (record k { cells = some cells }))

  pub read_cells-fresh :
      (v : Option (List Bool)) (cells : Cells)
      → CellsFit cells
      → Takes net
          (read_cells p)
          (record { cells = none; cell_visibilities = v })
          (print_cells cells)
          cells
          (record { cells = some cells; cell_visibilities = v })
  unfolding read_cells
  read_cells-fresh v cells h =
      let k : Caches = record { cells = none; cell_visibilities = v } in
      silent-Takes net {k = k} {a = k.cells} (λ s. refl) into _ then fetch_cells-Takes k cells h

  pub read_cells-cached :
      (v : Option (List Bool)) (cells : Cells)
      → let k : Caches = record { cells = some cells; cell_visibilities = v } in
        Takes net (read_cells p) k [] cells k
  unfolding read_cells
  read_cells-cached v cells =
      let k : Caches = record { cells = some cells; cell_visibilities = v } in
      silent-Takes net {k = k} {a = k.cells} (λ s. refl) into _ then pure-Takes net cells k

  pub fetch_cell_visibilities-Takes :
      (k : Caches) (width height stances : ℕ) (bits : List Bool)
      → VisibilitiesFit width height stances bits
      → Takes net
          (fetch_cell_visibilities p)
          k
          (print_visibilities width height stances bits)
          bits
          (record k { cell_visibilities = some bits })
  unfolding fetch_cell_visibilities
  fetch_cell_visibilities-Takes k width height stances bits h =
      read_count-Takes net little 10018 width k h.width_fits into _
      then read_count-Takes net little 10019 height k h.height_fits into _
      then read_count-Takes net little 10020 stances k h.stances_fit into _
      then int_mul-Takes net width height k h.product2 into _
      then int_mul-Takes net (width * height) width k h.product3 into _
      then int_mul-Takes net (width * height * width) height k h.product4 into _
      then int_mul-Takes net (width * height * width * height) stances k h.product5 into _
      then Takes-nil (map bit_byte bits) (
          read_bytes-Takes net (width * height * width * height * stances) (map bit_byte bits) k
              (length-bytes bits ∙ h.size)
            into rest
          then store_visibilities)
    where
      visible : List ℕ → List Bool
      visible = map (λ (b : ℕ). not (b == 0))

      rest : List ℕ → Action S (List Bool)
      rest raw = set_visibilities (visible raw) >>= λ _. pure (visible raw)

      store_visibilities :
          Takes net
            (rest (map bit_byte bits))
            k
            []
            bits
            (record k { cell_visibilities = some bits })
      store_visibilities = rw (bits-bytes bits) (
          silent-Takes net {k = k} {k' = record k { cell_visibilities = some bits }} {a = tt}
              (λ s. refl)
            into (λ _. pure bits)
          then pure-Takes net bits (record k { cell_visibilities = some bits }))

  pub read_visibilities-fresh :
      (c : Option Cells) (width height stances : ℕ) (bits : List Bool)
      → VisibilitiesFit width height stances bits
      → Takes net
          (read_cell_visibilities p)
          (record { cells = c; cell_visibilities = none })
          (print_visibilities width height stances bits)
          bits
          (record { cells = c; cell_visibilities = some bits })
  unfolding read_cell_visibilities
  read_visibilities-fresh c width height stances bits h =
      let k : Caches = record { cells = c; cell_visibilities = none } in
      silent-Takes net {k = k} {a = k.cell_visibilities} (λ s. refl) into _
      then fetch_cell_visibilities-Takes k width height stances bits h

  pub read_visibilities-cached :
      (c : Option Cells) (bits : List Bool)
      → let k : Caches = record { cells = c; cell_visibilities = some bits } in
        Takes net (read_cell_visibilities p) k [] bits k
  unfolding read_cell_visibilities
  read_visibilities-cached c bits =
      let k : Caches = record { cells = c; cell_visibilities = some bits } in
      silent-Takes net {k = k} {a = k.cell_visibilities} (λ s. refl) into _
      then pure-Takes net bits k
