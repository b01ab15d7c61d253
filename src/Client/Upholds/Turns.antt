-- ===== src/Client/Upholds/Turns.antt =====
-- readWorld and readPlayerContext, whatever the socket does and the server sends: the terrain that
-- the client has kept stays.
use russian_ai_cup.Base.{
  ℕ, ◌≡◌, refl, ◌∙◌, Option, none, some, Bool, List, ltb, ◌*◌, ◌^◌, ◌==ℤ◌, arith,
}
use russian_ai_cup.Model.World.{Cells}
use russian_ai_cup.Client.Monad.{Platform, Client, Caches, Action, pure, ◌>>=◌}
use russian_ai_cup.Client.Terrain.{
  set_cells, set_visibilities, int_mul, read_cell, read_column, fetch_cells, read_cells,
  fetch_cell_visibilities, read_cell_visibilities, read_world,
}
use russian_ai_cup.Client.Messages.{
  MessageType, message_type_code, game_over, player_context, ensure_message_type, read_message_type,
  read_turn, read_player_context,
}
use russian_ai_cup.Client.Upholds.{
  IsSteady, Fine, Upholds, pure-Upholds, exit-Upholds, undefined-Upholds, if-Upholds, bind-Upholds,
  repeat-Upholds, read_bytes-Upholds,
}
use russian_ai_cup.Client.Upholds.Readers.{
  read_enum-Upholds, read_boolean-Upholds, read_count-Upholds, expect_present-Upholds,
  read_trooper-Upholds, read_players-Upholds, read_troopers-Upholds, read_bonuses-Upholds, reading,
}

-- What is kept stays: once the client has cells, or visibilities, it has them for ever.
pub record Kept (k k' : Caches) : Type 0 where
  pub cells : (v : Cells) → k.cells ≡ some v → k'.cells ≡ some v
  pub visibilities : (v : List Bool) → k.cell_visibilities ≡ some v → k'.cell_visibilities ≡ some v

abbrev SameCells : Caches → Caches → Type 0
SameCells k k' = k'.cells ≡ k.cells

abbrev SameVisibilities : Caches → Caches → Type 0
SameVisibilities k k' = k'.cell_visibilities ≡ k.cell_visibilities

pub Kept-IsSteady : IsSteady Kept
Kept-IsSteady = record {
  stays = λ k. record { cells = λ v e. e; visibilities = λ v e. e };
  next = λ first second. record {
    cells = λ v e. second.cells v (first.cells v e);
    visibilities = λ v e. second.visibilities v (first.visibilities v e);
  };
}

SameCells-IsSteady : IsSteady SameCells
SameCells-IsSteady = record { stays = λ k. refl; next = λ first second. second ∙ first }

SameVisibilities-IsSteady : IsSteady SameVisibilities
SameVisibilities-IsSteady = record { stays = λ k. refl; next = λ first second. second ∙ first }

none_not_some : {A : Type 0} {o : Option A} (v : A) → o ≡ none → o ≡ some v → ⊥
none_not_some v e e' = cc

module _ {S : Type 0} (p : Platform S) where
  read_column-Upholds : Upholds SameVisibilities (read_column p)
  unfolding read_column read_cell
  read_column-Upholds =
      let steady = SameVisibilities-IsSteady in
      bind-Upholds steady (read_count-Upholds p steady 10008 (omega arith)) (λ n.
        repeat-Upholds steady n
          (bind-Upholds steady (read_enum-Upholds p steady) (λ a. pure-Upholds steady _)))

  fetch_cells-Upholds : Upholds SameVisibilities (fetch_cells p)
  unfolding fetch_cells
  fetch_cells-Upholds =
      let steady = SameVisibilities-IsSteady in
      bind-Upholds steady (read_count-Upholds p steady 10007 (omega arith)) (λ n.
        bind-Upholds steady (repeat-Upholds steady n read_column-Upholds) (λ cells.
          bind-Upholds steady {m = set_cells cells} (record { at = λ c. (tt, refl) })
            (λ _. pure-Upholds steady cells)))

  int_mul-Upholds :
      {P : Caches → Caches → Type 0} (steady : IsSteady P) (a b : ℕ)
      → Upholds {S = S} P (int_mul a b)
  unfolding int_mul
  int_mul-Upholds steady a b =
      if-Upholds steady (ltb (a * b) (2 ^ 31)) (pure-Upholds steady (a * b))
        (undefined-Upholds steady)

  fetch_cell_visibilities-Upholds : Upholds SameCells (fetch_cell_visibilities p)
  unfolding fetch_cell_visibilities
  fetch_cell_visibilities-Upholds =
      let steady = SameCells-IsSteady in
      bind-Upholds steady (read_count-Upholds p steady 10018 (omega arith)) (λ w.
        bind-Upholds steady (read_count-Upholds p steady 10019 (omega arith)) (λ h.
          bind-Upholds steady (read_count-Upholds p steady 10020 (omega arith)) (λ n.
            bind-Upholds steady (int_mul-Upholds steady w h) (λ n2.
              bind-Upholds steady (int_mul-Upholds steady n2 w) (λ n3.
                bind-Upholds steady (int_mul-Upholds steady n3 h) (λ n4.
                  bind-Upholds steady (int_mul-Upholds steady n4 n) (λ count.
                    bind-Upholds steady (read_bytes-Upholds steady p count) (λ bytes.
                      bind-Upholds steady {m = set_visibilities _} (record { at = λ c. (tt, refl) })
                        (λ _. pure-Upholds steady _)))))))))

  cells_from :
      (cached : Option Cells) (c : Client S)
      → c.caches.cells ≡ cached
      → Fine Kept c.caches (
          (elim cached as (λ _. Action S Cells) [ some cells ↦ pure cells | none ↦ fetch_cells p ])
            c)
  cells_from (some cells) c e = (pure-Upholds Kept-IsSteady cells).at c
  cells_from none c e =
      let (known, same) = fetch_cells-Upholds.at c in
      (
        known,
        record { cells = λ v h. absurd (none_not_some v e h); visibilities = λ v h. same ∙ h },
      )

  read_cells-Upholds : Upholds Kept (read_cells p)
  unfolding read_cells ◌>>=◌
  read_cells-Upholds = record { at = λ c. cells_from c.caches.cells c refl }

  visibilities_from :
      (cached : Option (List Bool)) (c : Client S)
      → c.caches.cell_visibilities ≡ cached
      → Fine Kept c.caches (
          (elim cached as (λ _. Action S (List Bool)) [
            | some visibilities ↦ pure visibilities
            | none ↦ fetch_cell_visibilities p
          ])
            c)
  visibilities_from (some visibilities) c e = (pure-Upholds Kept-IsSteady visibilities).at c
  visibilities_from none c e =
      let (known, same) = fetch_cell_visibilities-Upholds.at c in
      (
        known,
        record { cells = λ v h. same ∙ h; visibilities = λ v h. absurd (none_not_some v e h) },
      )

  read_cell_visibilities-Upholds : Upholds Kept (read_cell_visibilities p)
  unfolding read_cell_visibilities ◌>>=◌
  read_cell_visibilities-Upholds = record {
    at = λ c. visibilities_from c.caches.cell_visibilities c refl;
  }

  world_from :
      {P : Caches → Caches → Type 0} (steady : IsSteady P)
      → Upholds P (read_cells p)
      → Upholds P (read_cell_visibilities p)
      → Upholds P (read_world p)
  unfolding read_world
  world_from steady cells visibilities =
      bind-Upholds steady (expect_present-Upholds p steady 10002 (omega arith)) (λ present.
        search (reading, read_players-Upholds, read_troopers-Upholds, read_bonuses-Upholds) depth
          40)

  read_world-Upholds : Upholds Kept (read_world p)
  read_world-Upholds = world_from Kept-IsSteady read_cells-Upholds read_cell_visibilities-Upholds

module _ {S : Type 0} (p : Platform S) {P : Caches → Caches → Type 0} (steady : IsSteady P) where
  pub read_message_type-Upholds : Upholds P (read_message_type p)
  unfolding read_message_type
  read_message_type-Upholds =
      bind-Upholds steady (read_enum-Upholds p steady) (λ code. pure-Upholds steady _)

  pub ensure_message_type-Upholds :
      (actual_type expected_type : MessageType)
      → Upholds P (ensure_message_type p actual_type expected_type)
  unfolding ensure_message_type
  ensure_message_type-Upholds actual_type expected_type =
      if-Upholds steady (message_type_code actual_type ==ℤ message_type_code expected_type)
        (pure-Upholds steady tt) (exit-Upholds steady 10011 (omega arith))

module _ {S : Type 0} (p : Platform S) where
  read_turn-Upholds : Upholds Kept (read_turn p)
  unfolding read_turn
  read_turn-Upholds =
      let steady = Kept-IsSteady in
      bind-Upholds steady (read_trooper-Upholds p steady)
        (λ trooper. bind-Upholds steady (read_world-Upholds p) (λ world. pure-Upholds steady _))

  -- Whatever the socket does and the server sends: readPlayerContext leaves the cells and the
  -- visibilities that the client has kept as they are, and where it ends the process by exit(code),
  -- the code is one of 10001 to 10020.
  pub read_player_context-Upholds : Upholds Kept (read_player_context p)
  unfolding read_player_context
  read_player_context-Upholds =
      let steady = Kept-IsSteady in
      bind-Upholds steady (read_message_type-Upholds p steady) (λ type.
        if-Upholds steady (message_type_code type ==ℤ message_type_code game_over)
          (pure-Upholds steady none)
          (bind-Upholds steady (ensure_message_type-Upholds p steady type player_context) (λ _.
            bind-Upholds steady (read_boolean-Upholds p steady)
              (λ present. if-Upholds steady present read_turn-Upholds (pure-Upholds steady none)))))
