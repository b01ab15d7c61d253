-- ===== src/Runner/Serves.antt =====
-- The server's side of a game: what it asks for, whatever the orders are.
use russian_ai_cup.Base.{ℕ, ◌≡◌, ℤ, negsuc, true, List, [], ◌∷◌, ◌++◌}
use russian_ai_cup.Model.Double.{Fpu}
use russian_ai_cup.Model.Game.{Game}
use russian_ai_cup.Model.Move.{Move}
use russian_ai_cup.Model.World.{PlayerContext, World}
use russian_ai_cup.Client.Monad.{Caches}
use russian_ai_cup.Client.Wire.Units.{TrooperFits}
use russian_ai_cup.Client.Wire.Terrain.{CellsFit, VisibilitiesFit}
use russian_ai_cup.Client.Wire.World.{WorldFits, no_caches, terrain_of}
use russian_ai_cup.Client.Wire.Messages.{print_player_context, print_terrain}
use russian_ai_cup.Strategy.Turn.{Turn}
use russian_ai_cup.Strategy.Turns.{Library, Globals}
use russian_ai_cup.Strategy.Turns.Fair.{IsBest, Fair, sight}
use russian_ai_cup.Runner.{has_strategy}

-- A later world `v` of a game whose first world is `w`: the same board.
pub record SameTerrain (w v : World) : Type 0 where
  pub width : v.width ≡ w.width
  pub height : v.height ≡ w.height
  pub cells : v.cells ≡ w.cells
  pub visibilities : v.cell_visibilities ≡ w.cell_visibilities

-- The orders answer the turns, one for one.
abbrev pub Answers : List Turn → List Move → Type 0
Answers [] [] = Unit {0}
Answers (t ∷ turns) (move ∷ moves) = IsBest t move × Answers turns moves
Answers _ _ = ⊥

module _ {R : Type 0} (lib : Library R) (fpu : Fpu) (picks : ℕ) (n : ℤ) (game : Game) where
  -- A player context whose turn is fair and whose trooper has a strategy, on the wire.
  pub record Asks (c : PlayerContext) (g g1 : Globals R) : Type 0 where
    pub trooper_fits : TrooperFits c.trooper
    pub world_fits : WorldFits c.world
    pub strategy : has_strategy n c.trooper.teammate_index ≡ true
    pub fair : Fair lib fpu picks game c.trooper c.world g g1

  -- What the server sends after the first turn, and the turns that it asks for. `Last` says what the
  -- game ends with, in which caches and globals.
  pub data Continues (w : World) (Last : Caches → Globals R → List ℕ → Type 0)
      : Globals R → List ℕ → List Turn → Type 0 where
    closes :
        {g : Globals R} {bytes : List ℕ} {turns : List Turn}
        → Last (terrain_of w) g bytes
        → turns ≡ []
        → Continues w Last g bytes turns
    asks_again :
        {g g1 : Globals R} {bytes later_bytes : List ℕ} {turns later_turns : List Turn}
        (c : PlayerContext) (asks : Asks c g g1)
        → SameTerrain w c.world
        → bytes ≡ print_player_context c [] ++ later_bytes
        → turns ≡ sight lib fpu picks game asks.fair ∷ later_turns
        → Continues w Last g1 later_bytes later_turns
        → Continues w Last g bytes turns

  -- What the server sends from the first turn on.
  pub data Serves (Last : Caches → Globals R → List ℕ → Type 0)
      : Globals R → List ℕ → List Turn → Type 0 where
    no_turn :
        {g : Globals R} {bytes : List ℕ} {turns : List Turn}
        → Last no_caches g bytes
        → turns ≡ []
        → Serves Last g bytes turns
    asks_first :
        {g g1 : Globals R} {bytes later_bytes : List ℕ} {turns later_turns : List Turn}
        (c : PlayerContext) (width height stances : ℕ) (asks : Asks c g g1)
        → g.move_index ≡ negsuc 0
        → CellsFit c.world.cells
        → VisibilitiesFit width height stances c.world.cell_visibilities
        → bytes ≡ print_player_context c (print_terrain c.world width height stances) ++ later_bytes
        → turns ≡ sight lib fpu picks game asks.fair ∷ later_turns
        → Continues c.world Last g1 later_bytes later_turns
        → Serves Last g bytes turns
