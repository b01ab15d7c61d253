-- ===== src/Runner/Legal.antt =====
-- The orders of the whole program in a game that the server plays fairly.
use russian_ai_cup.Base.{
  ℕ, suc, ◌+◌, ◌^◌, ◌<◌, ◌≡◌, refl, sym, ap, subst, ℤ, true, List, [], ◌∷◌, ◌++◌, All, length,
  to_signed, of_signed, arith,
}
use russian_ai_cup.Model.Double.{Fpu}
use russian_ai_cup.Model.Game.{Game}
use russian_ai_cup.Model.Move.{Move}
use russian_ai_cup.Model.World.{PlayerContext, World}
use russian_ai_cup.Client.Monad.{Platform, Caches}
use russian_ai_cup.Client.Stream.{IsStream}
use russian_ai_cup.Client.Wire.Scalars.{IsInt}
use russian_ai_cup.Client.Wire.World.{no_caches, terrain_of}
use russian_ai_cup.Client.Wire.GameContext.{GameFits}
use russian_ai_cup.Strategy.Point.{point_of}
use russian_ai_cup.Strategy.Turn.{Turn}
use russian_ai_cup.Strategy.Turns.{Library, Globals}
use russian_ai_cup.Strategy.Turns.Board.{
  Knows, Ready, first_turn, later_turn, Knows-same, turn-Knows,
}
use russian_ai_cup.Strategy.Turns.Fair.{IsMapped, IsBounded, sight, sight-IsMapped, fair_turn}
use russian_ai_cup.Runner.{finished, start_run}
use russian_ai_cup.Runner.Session.{greeting, introduction}
use russian_ai_cup.Runner.Plays.{Ordered, Plays, ending, opening, later, Over}
use russian_ai_cup.Runner.Loop.{print_moves, start_run-Sent}
use russian_ai_cup.Runner.Program.{IsFinished, Over-Finishes}
use russian_ai_cup.Runner.Sent.{Sent}
use russian_ai_cup.Runner.Serves.{
  SameTerrain, Answers, Asks, Continues, closes, asks_again, Serves, no_turn, asks_first,
}

module _ {R : Type 0} (lib : Library R) (fpu : Fpu) (picks : ℕ) (n : ℤ) (game : Game)
    (Last : Caches → Globals R → List ℕ → Type 0) where
  -- The game with the orders that answer it.
  abbrev pub Answered : Caches → Globals R → List ℕ → List Turn → Type 0
  Answered k g bytes turns =
      (moves : List Move) × Plays lib fpu picks n game Last k g bytes moves
      × Answers turns moves
      × (length moves ≡ length turns)

  same_terrain : (w v : World) → SameTerrain w v → terrain_of w ≡ terrain_of v
  same_terrain w v same = rw (same.cells, same.visibilities) refl

  -- One turn, its answer, and the rest of the game.
  answer :
      (k k1 : Caches) (g g1 : Globals R) (bytes later_bytes : List ℕ) (turns : List Turn)
      (c : PlayerContext) (asks : Asks lib fpu picks n game c g g1)
      → Ready c.world g
      → IsBounded (sight lib fpu picks game asks.fair)
      → (Knows c.world g1 → Answered k1 g1 later_bytes turns)
      → ((move : Move) (moves : List Move)
          → Ordered lib fpu picks n game c g move g1
          → Plays lib fpu picks n game Last k1 g1 later_bytes moves
          → Plays lib fpu picks n game Last k g bytes (move ∷ moves))
      → Answered k g bytes (sight lib fpu picks game asks.fair ∷ turns)
  answer k k1 g g1 bytes later_bytes turns c asks ready bounded rest play =
      let (move, order, best, knows) = fair_turn lib fpu picks game asks.fair ready bounded in
      let (moves, plays, answers, size) = rest knows in
      (
        move ∷ moves,
        play move moves (record { strategy = asks.strategy; order = order }) plays,
        (best, answers),
        ap suc size,
      )

  Continues-Answered :
      (w : World) {g : Globals R} {bytes : List ℕ} {turns : List Turn}
      → Knows w g
      → Continues lib fpu picks n game w Last g bytes turns
      → All IsBounded turns
      → Answered (terrain_of w) g bytes turns
  Continues-Answered w knows (closes last t) bounded = rw t ([], ending last refl, tt, refl)
  Continues-Answered w {g} {bytes} knows
        (asks_again {g1 = g1} {later_bytes = later_bytes} {later_turns = turns} c asks same b t
          rest)
        bounded =
      let (now, after) = subst (λ l. All IsBounded l) t bounded in
      rw t (
        answer (terrain_of w) (terrain_of w) g g1 bytes later_bytes turns c asks
          (later_turn (Knows-same knows same.width same.height same.cells)) now
          (λ known.
            Continues-Answered w
              (Knows-same known (sym same.width) (sym same.height) (sym same.cells)) rest after)
          (λ move moves turn plays.
            later c move (same_terrain w c.world same) asks.trooper_fits asks.world_fits b turn refl
              plays))

  pub Serves-Answered :
      {g : Globals R} {bytes : List ℕ} {turns : List Turn}
      → Serves lib fpu picks n game Last g bytes turns
      → All IsBounded turns
      → Answered no_caches g bytes turns
  Serves-Answered (no_turn last t) bounded = rw t ([], ending last refl, tt, refl)
  Serves-Answered {g} {bytes}
        (asks_first {g1 = g1} {later_bytes = later_bytes} {later_turns = turns} c width height
          stances asks unplayed cells visibilities b t rest)
        bounded =
      let (now, after) = subst (λ l. All IsBounded l) t bounded in
      rw t (
        answer no_caches (terrain_of c.world) g g1 bytes later_bytes turns c asks
          (first_turn unplayed) now (λ knows. Continues-Answered c.world knows rest after)
          (λ move moves turn plays.
            opening c move width height stances refl asks.trooper_fits asks.world_fits cells
              visibilities b turn refl plays))

module _ {S R : Type 0} {p : Platform S} (net : IsStream p) (little : p.little_endian ≡ true)
    (lib : Library R) (fpu : Fpu) (picks : ℕ) (n : ℤ) (game : Game) (g' : Globals R)
    (k' : Caches) where
  open net use {incoming}

  -- The runner in a game that the server plays fairly and in bounded turns, over a connection that
  -- opens and may break.
  pub start_run-Answers :
      (fuel : ℕ) (host token bytes rest : List ℕ) (port : ℤ) (turns : List Turn) (g : Globals R)
      (s s1 : S)
      → p.open_socket host (to_signed (2 ^ 16) (of_signed (2 ^ 16) port)) s ≡ (true, s1)
      → length token + length token < 2 ^ 32
      → IsInt n
      → GameFits game
      → Serves lib fpu picks n game (Over g' k') g bytes turns
      → incoming s1 ≡ greeting n game ++ (bytes ++ rest)
      → length turns < fuel
      → All IsBounded turns
      → (moves : List Move) × Answers turns moves
        × Sent net
            (λ r s'. (r ≡ finished (record { socket = s'; caches = k' }) g') × (incoming s' ≡ rest))
            (introduction token ++ print_moves moves)
            s1
            (start_run p lib fpu picks fuel host port token g s)
  start_run-Answers fuel host token bytes rest port turns g s s1 opened short int_n fits serves e h
        bounded =
      let (moves, plays, answers, size) =
        Serves-Answered lib fpu picks n game (Over g' k') serves bounded in
      (
        moves,
        answers,
        start_run-Sent net little lib fpu picks n game (Over g' k')
            (IsFinished net little lib fpu picks n game g' k') fuel host token bytes rest port moves
            g s s1 (Over-Finishes net little lib fpu picks n game g' k' rest) opened short int_n
            fits plays e (omega (arith, size, h)),
      )

Continues-IsMapped :
    {R : Type 0} (lib : Library R) (fpu : Fpu) (picks : ℕ) (n : ℤ) (game : Game)
    (Last : Caches → Globals R → List ℕ → Type 0) (w : World) {g : Globals R} {bytes : List ℕ}
    {turns : List Turn}
    → Knows w g
    → Continues lib fpu picks n game w Last g bytes turns
    → All IsMapped turns
Continues-IsMapped lib fpu picks n game Last w knows (closes last t) = rw t tt
Continues-IsMapped lib fpu picks n game Last w {g} knows
      (asks_again {g1 = g1} c asks same b t rest) =
    let ready = later_turn (Knows-same knows same.width same.height same.cells) in
    let known =
      turn-Knows lib c.world (point_of c.trooper.unit) picks g g1 ready asks.fair.picked in
    rw t (
      sight-IsMapped lib fpu picks game asks.fair ready,
      Continues-IsMapped lib fpu picks n game Last w
          (Knows-same known (sym same.width) (sym same.height) (sym same.cells)) rest,
    )

-- In every turn of a game that the server plays fairly from the first turn of the process on (every
-- trooper is inside the board's cells, the one to move is on the board, the board stays the same, and
-- a target is picked within the fuel in every turn), whatever the game ends with, the search goes by
-- the map of the world that the turn shows, the first turn's and the later ones': the board's sizes,
-- the distances of `floyd` between the cells, and a target that can be reached by a walk over free
-- cells of more than five steps, and by no shorter one of fewer than `inf` steps.
pub Serves-IsMapped :
    {R : Type 0} (lib : Library R) (fpu : Fpu) (picks : ℕ) (n : ℤ) (game : Game)
    (Last : Caches → Globals R → List ℕ → Type 0) (g : Globals R) (bytes : List ℕ)
    (turns : List Turn)
    → Serves lib fpu picks n game Last g bytes turns
    → All IsMapped turns
Serves-IsMapped lib fpu picks n game Last g bytes turns (no_turn last t) = rw t tt
Serves-IsMapped lib fpu picks n game Last g bytes turns
      (asks_first {g1 = g1} c width height stances asks unplayed cells visibilities b t rest) =
    let ready = first_turn unplayed in
    let known =
      turn-Knows lib c.world (point_of c.trooper.unit) picks g g1 ready asks.fair.picked in
    rw t (
      sight-IsMapped lib fpu picks game asks.fair ready,
      Continues-IsMapped lib fpu picks n game Last c.world known rest,
    )
