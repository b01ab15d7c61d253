-- ===== src/Runner/Cut.antt =====
-- The whole program over a connection whose stream ends too early: inside the greeting, or inside a
-- message of the game.
use russian_ai_cup.Base.{ℕ, ◌≡◌, false, List, [], ◌∷◌, ◌++◌}
use russian_ai_cup.Model.Game.{Game}
use russian_ai_cup.Model.Move.{Move}
use russian_ai_cup.Model.World.{PlayerContext}
use russian_ai_cup.Client.Monad.{Client, Caches}
use russian_ai_cup.Client.Messages.{game_over, player_context}
use russian_ai_cup.Client.Takes.{Takes}
use russian_ai_cup.Client.Wire.Scalars.{print_boolean}
use russian_ai_cup.Client.Wire.Units.{TrooperFits}
use russian_ai_cup.Client.Wire.Terrain.{CellsFit, VisibilitiesFit}
use russian_ai_cup.Client.Wire.World.{WorldFits, no_caches, terrain_of}
use russian_ai_cup.Client.Wire.Messages.{print_player_context, print_terrain}
use russian_ai_cup.Client.Wire.GameContext.{print_type}
use russian_ai_cup.Strategy.Turn.{Turn}
use russian_ai_cup.Strategy.Turns.{Globals}
use russian_ai_cup.Runner.Serves.{Serves}

-- A good message to a client with the caches `k`.
pub data Message (k : Caches) : List ℕ → Type 0 where
  over : Message k (print_type game_over)
  idle : Message k (print_type player_context ++ print_boolean false)
  first :
      (c : PlayerContext) (width height stances : ℕ)
      → k ≡ no_caches
      → TrooperFits c.trooper
      → WorldFits c.world
      → CellsFit c.world.cells
      → VisibilitiesFit width height stances c.world.cell_visibilities
      → Message k (print_player_context c (print_terrain c.world width height stances))
  again :
      (c : PlayerContext)
      → k ≡ terrain_of c.world
      → TrooperFits c.trooper
      → WorldFits c.world
      → Message k (print_player_context c [])

-- A game that breaks off inside a good message, or before it.
pub record CutOff {R : Type 0} (k : Caches) (g : Globals R) (bytes : List ℕ) : Type 0 where
  pub message : List ℕ
  pub next : ℕ
  pub missing : List ℕ
  pub good : Message k message
  pub cut : message ≡ bytes ++ (next ∷ missing)
