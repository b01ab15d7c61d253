-- ===== src/Client/Terrain.antt =====
-- readCells, readCellVisibilities and readWorld of RemoteProcessClient.cpp. The server sends the
-- terrain once: both readers answer from the client's caches afterwards, and read nothing.
use russian_ai_cup.Base.{ℕ, ◌*◌, ◌^◌, not, Option, none, some, Bool, List, ltb, ◌==◌, if◌then◌else◌}
use mathlib.Core.List.{map}
use russian_ai_cup.Model.World.{Cells, CellType, cell_type_of, World}
use russian_ai_cup.Model.World.Methods.{make_world}
use russian_ai_cup.Client.Monad.{Platform, ok, undefined, Action, pure, fail, ◌>>=◌, ◌>>◌}
use russian_ai_cup.Client.Bytes.{read_bytes}
use russian_ai_cup.Client.Scalars.{read_enum, read_int}
use russian_ai_cup.Client.Units.{
  repeat, read_count, expect_present, read_players, read_troopers, read_bonuses,
}

module _ {S : Type 0} where
  abbrev pub get_cells : Action S (Option Cells)
  get_cells c = (ok c.cells, c)

  abbrev pub set_cells : Cells → Action S (Unit {0})
  set_cells v c = (ok tt, record c { caches = record (c.caches) { cells = some v } })

  abbrev pub get_visibilities : Action S (Option (List Bool))
  get_visibilities c = (ok c.cell_visibilities, c)

  abbrev pub set_visibilities : List Bool → Action S (Unit {0})
  set_visibilities v c =
      (ok tt, record c { caches = record (c.caches) { cell_visibilities = some v } })

  -- `a * b` on ints that are not negative; an overflow is undefined.
  unfoldable pub int_mul : ℕ → ℕ → Action S ℕ
  int_mul a b = if ltb (a * b) (2 ^ 31) then pure (a * b) else fail undefined

module _ {S : Type 0} (p : Platform S) where
  unfoldable pub read_cell : Action S CellType
  read_cell = do code ← read_enum p; pure (cell_type_of code)

  unfoldable pub read_column : Action S (List CellType)
  read_column = do height ← read_count p 10008; repeat height read_cell

  unfoldable pub fetch_cells : Action S Cells
  fetch_cells = do
    width ← read_count p 10007
    cells ← repeat width read_column
    set_cells cells
    pure cells

  unfoldable pub read_cells : Action S Cells
  unfolding fetch_cells
  read_cells = do cached ← get_cells; elim cached [ some cells ↦ pure cells | none ↦ fetch_cells ]

  unfoldable pub fetch_cell_visibilities : Action S (List Bool)
  fetch_cell_visibilities = do
    world_width ← read_count p 10018
    world_height ← read_count p 10019
    stance_count ← read_count p 10020
    n2 ← int_mul world_width world_height
    n3 ← int_mul n2 world_width
    n4 ← int_mul n3 world_height
    raw_visibility_count ← int_mul n4 stance_count
    raw_visibilities ← read_bytes p raw_visibility_count
    let visibilities = map (λ (b : ℕ). not (b == 0)) raw_visibilities
    set_visibilities visibilities
    pure visibilities

  unfoldable pub read_cell_visibilities : Action S (List Bool)
  unfolding fetch_cell_visibilities
  read_cell_visibilities = do
    cached ← get_visibilities
    elim cached [ some visibilities ↦ pure visibilities | none ↦ fetch_cell_visibilities ]

  unfoldable pub read_world : Action S World
  read_world = do
    expect_present p 10002
    move_index ← read_int p
    width ← read_int p
    height ← read_int p
    players ← read_players p
    troopers ← read_troopers p
    bonuses ← read_bonuses p
    cells ← read_cells
    cell_visibilities ← read_cell_visibilities
    pure (make_world move_index width height players troopers bonuses cells cell_visibilities)
