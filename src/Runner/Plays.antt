-- ===== src/Runner/Plays.antt =====
-- A game as the server plays it, with the orders of the strategy.
use russian_ai_cup.Base.{ℕ, ◌≡◌, ℤ, true, false, List, [], ◌∷◌, ◌++◌}
use russian_ai_cup.Model.Double.{Fpu}
use russian_ai_cup.Model.Game.{Game}
use russian_ai_cup.Model.Move.{Move}
use russian_ai_cup.Model.World.{PlayerContext}
use russian_ai_cup.Client.Monad.{Caches}
use russian_ai_cup.Client.Messages.{game_over, player_context}
use russian_ai_cup.Client.Wire.Scalars.{print_boolean}
use russian_ai_cup.Client.Wire.Units.{TrooperFits}
use russian_ai_cup.Client.Wire.Terrain.{CellsFit, VisibilitiesFit}
use russian_ai_cup.Client.Wire.World.{WorldFits, no_caches, terrain_of}
use russian_ai_cup.Client.Wire.Messages.{print_player_context, print_terrain}
use russian_ai_cup.Client.Wire.GameContext.{print_type}
use russian_ai_cup.Client.Wire.Errors.Turn.{MalformedTurn}
use russian_ai_cup.Strategy.Turns.{Library, Globals, ordered, run_turn}
use russian_ai_cup.Runner.{has_strategy}

module _ {R : Type 0} (lib : Library R) (fpu : Fpu) (picks : ℕ) (n : ℤ) (game : Game) where
  -- A turn of the strategy: the order it gives, and the globals after it.
  pub record Ordered (c : PlayerContext) (g : Globals R) (move : Move) (g' : Globals R)
      : Type 0 where
    pub strategy : has_strategy n c.trooper.teammate_index ≡ true
    pub order : run_turn lib fpu picks c.trooper c.world game g ≡ ordered move g'

  -- A game as the server plays it, from a client with the caches `k`: the bytes that it sends and the
  -- orders that it gets back. The first player context carries the terrain, each later one repeats the
  -- terrain that the client has kept, and sends none of it. `Last` says what the game ends with, in
  -- which caches and globals.
  pub data Plays (Last : Caches → Globals R → List ℕ → Type 0)
      : Caches → Globals R → List ℕ → List Move → Type 0 where
    ending :
        {k : Caches} {g : Globals R} {bytes : List ℕ} {moves : List Move}
        → Last k g bytes
        → moves ≡ []
        → Plays Last k g bytes moves
    opening :
        {k : Caches} {g g1 : Globals R} {bytes later_bytes : List ℕ} {moves later_moves : List Move}
        (c : PlayerContext) (move : Move) (width height stances : ℕ)
        → k ≡ no_caches
        → TrooperFits c.trooper
        → WorldFits c.world
        → CellsFit c.world.cells
        → VisibilitiesFit width height stances c.world.cell_visibilities
        → bytes ≡ print_player_context c (print_terrain c.world width height stances) ++ later_bytes
        → Ordered c g move g1
        → moves ≡ move ∷ later_moves
        → Plays Last (terrain_of c.world) g1 later_bytes later_moves
        → Plays Last k g bytes moves
    later :
        {k : Caches} {g g1 : Globals R} {bytes later_bytes : List ℕ} {moves later_moves : List Move}
        (c : PlayerContext) (move : Move)
        → k ≡ terrain_of c.world
        → TrooperFits c.trooper
        → WorldFits c.world
        → bytes ≡ print_player_context c [] ++ later_bytes
        → Ordered c g move g1
        → moves ≡ move ∷ later_moves
        → Plays Last k g1 later_bytes later_moves
        → Plays Last k g bytes moves

module _ {R : Type 0} where
  -- The end of a game: a game-over message, or a player context whose flag says that there is none.
  pub data Over (g' : Globals R) (k' : Caches) (k : Caches) (g : Globals R) (bytes : List ℕ)
      : Type 0 where
    over : k ≡ k' → g ≡ g' → bytes ≡ print_type game_over → Over g' k' k g bytes
    idle :
        k ≡ k'
        → g ≡ g'
        → bytes ≡ print_type player_context ++ print_boolean false
        → Over g' k' k g bytes

  -- A game that breaks off at a malformed message.
  abbrev pub Malformed : ℕ → Caches → Globals R → List ℕ → Type 0
  Malformed code k g bytes = MalformedTurn k bytes code
