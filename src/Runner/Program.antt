-- ===== src/Runner/Program.antt =====
-- The whole program: `main` from the connection to the end of the game, or to a malformed message.
use russian_ai_cup.Base.{
  ℕ, suc, ◌+◌, ◌^◌, ◌<◌, ◌≡◌, refl, ap, ◌∙◌, ℤ, true, false, none, List, [], ◌++◌, length,
  to_signed, of_signed,
}
use russian_ai_cup.Model.Double.{Fpu}
use russian_ai_cup.Model.Game.{Game}
use russian_ai_cup.Model.Move.{Move}
use russian_ai_cup.Client.Monad.{Platform, Client, Caches}
use russian_ai_cup.Client.Messages.{read_player_context, game_over, player_context}
use russian_ai_cup.Client.Stream.{IsStream}
use russian_ai_cup.Client.Takes.{Takes}
use russian_ai_cup.Client.Output.{IsOpen}
use russian_ai_cup.Client.Wire.Scalars.{IsInt, print_boolean}
use russian_ai_cup.Client.Wire.World.{no_caches}
use russian_ai_cup.Client.Wire.Messages.{read_player_context-over, read_player_context-idle}
use russian_ai_cup.Client.Wire.GameContext.{print_type, GameFits}
use russian_ai_cup.Strategy.Turns.{Library, Globals}
use russian_ai_cup.Runner.{Run, finished, ended, run_turns, start_run}
use russian_ai_cup.Runner.Sent.{after-exit, Sent-open, Sent-nothing, read-Sent}
use russian_ai_cup.Runner.Session.{greeting, introduction}
use russian_ai_cup.Runner.Plays.{Plays, Over, over, idle, Malformed}
use russian_ai_cup.Client.Wire.Errors.Turn.{read_player_context-Rejects}
use russian_ai_cup.Runner.Loop.{print_moves, behind, Ends, Finishes, start_run-Sent}

module _ {S R : Type 0} {p : Platform S} (net : IsStream p) (little : p.little_endian ≡ true)
    (lib : Library R) (fpu : Fpu) (picks : ℕ) (n : ℤ) (game : Game) where
  open net use {incoming, outgoing}

  -- The game is over: the loop has finished.
  module _ (g' : Globals R) (k' : Caches) where
    abbrev pub IsFinished : Run S R → S → List ℕ → Type 0
    IsFinished run s rest =
        (run ≡ finished (record { socket = s; caches = k' }) g') × (incoming s ≡ rest)

    -- The loop ends where the reader gives NULL.
    stop_here :
        (fuel : ℕ) (k : Caches) (g : Globals R) (s : S) (print rest : List ℕ)
        → Takes net (read_player_context p) k print none k
        → incoming s ≡ print ++ rest
        → k ≡ k'
        → g ≡ g'
        → Ends net little lib fpu picks n game (Over g' k') IsFinished (suc fuel) k g s rest []
    unfolding run_turns
    stop_here fuel k g s print rest takes e same_k same_g =
        read-Sent net takes s rest _ e
          (λ s1 i1. Sent-nothing net s1 (rw (same_k, same_g) refl, i1) refl)

    pub Over-Finishes :
        (rest : List ℕ) → Finishes net little lib fpu picks n game (Over g' k') IsFinished rest
    Over-Finishes rest fuel k g s bytes (over same_k same_g b) e =
        stop_here fuel k g s (print_type game_over) rest (read_player_context-over net little k)
          (behind net little lib fpu picks n game s rest e b) same_k same_g
    Over-Finishes rest fuel k g s bytes (idle same_k same_g b) e =
        stop_here fuel k g s (print_type player_context ++ print_boolean false) rest
          (read_player_context-idle net little k)
          (behind net little lib fpu picks n game s rest e b) same_k same_g

  -- The game breaks off: the process has ended by exit(code).
  module _ (code : ℕ) where
    abbrev pub IsEnded : Run S R → S → List ℕ → Type 0
    IsEnded run s rest = (c : Client S) × (run ≡ ended code c) × (c.socket ≡ s)

    Malformed-Finishes :
        (rest : List ℕ) → Finishes net little lib fpu picks n game (Malformed code) IsEnded rest
    unfolding run_turns
    Malformed-Finishes rest fuel k g s bytes bad e =
        let (c, r, o) = (read_player_context-Rejects net little k bytes code bad).ends s rest e in
        Sent-nothing net c.socket (c, after-exit _ r, refl) o

module _ {S R : Type 0} {p : Platform S} (net : IsStream p) (open_ : IsOpen net)
    (little : p.little_endian ≡ true) (lib : Library R) (fpu : Fpu) (picks : ℕ) (n : ℤ)
    (game : Game) where
  open net use {incoming, outgoing}

  module _ (g' : Globals R) (k' : Caches) where
    -- The program from `main` to the end of the game, on a little-endian machine over a connection
    -- that opens and does not break. If the server sends the team's size, the game's constants and
    -- then a game in which every turn of the strategy ends with an order, the program has finished
    -- after all of it and read no byte more; it has sent its token, the protocol version and the
    -- orders of the turns, one after the other, and nothing else. One round of fuel more than there
    -- are turns is enough. The numbers must fit their fields, and the token be below 2^31 bytes.
    pub start_run-Plays :
        (fuel : ℕ) (host token bytes rest : List ℕ) (port : ℤ) (moves : List Move) (g : Globals R)
        (s s1 : S)
        → p.open_socket host (to_signed (2 ^ 16) (of_signed (2 ^ 16) port)) s ≡ (true, s1)
        → length token + length token < 2 ^ 32
        → IsInt n
        → GameFits game
        → Plays lib fpu picks n game (Over g' k') no_caches g bytes moves
        → incoming s1 ≡ greeting n game ++ (bytes ++ rest)
        → length moves < fuel
        → (s' : S) × (start_run p lib fpu picks fuel host port token g s
            ≡ finished (record { socket = s'; caches = k' }) g')
          × (incoming s' ≡ rest)
          × (outgoing s' ≡ outgoing s1 ++ (introduction token ++ print_moves moves))
    start_run-Plays fuel host token bytes rest port moves g s s1 opened short int_n fits plays e h =
        let (s', (done, i), o) = Sent-open net open_ (
          start_run-Sent net little lib fpu picks n game (Over g' k')
            (IsFinished net little lib fpu picks n game g' k') fuel host token bytes rest port moves
            g s s1 (Over-Finishes net little lib fpu picks n game g' k' rest) opened short int_n
            fits plays e h) in
        (s', done, i, o)

  module _ (code : ℕ) where
    -- The program from `main`, on a little-endian machine over a connection that opens and does not
    -- break, if the server sends the team's size, the game's constants and then a game that breaks
    -- off at a malformed message after turns that all end with an order: a message of an unexpected
    -- type, a turn without its trooper, or a malformed world in the first turn. It ends by exit with
    -- the code of the message's first error; it has sent its token, the protocol version and the
    -- orders of the turns before, and nothing else. One round of fuel more than there are turns is
    -- enough. The numbers must fit their fields, and the token be below 2^31 bytes.
    pub start_run-Malformed :
        (fuel : ℕ) (host token bytes rest : List ℕ) (port : ℤ) (moves : List Move) (g : Globals R)
        (s s1 : S)
        → p.open_socket host (to_signed (2 ^ 16) (of_signed (2 ^ 16) port)) s ≡ (true, s1)
        → length token + length token < 2 ^ 32
        → IsInt n
        → GameFits game
        → Plays lib fpu picks n game (Malformed code) no_caches g bytes moves
        → incoming s1 ≡ greeting n game ++ (bytes ++ rest)
        → length moves < fuel
        → (c : Client S) × (start_run p lib fpu picks fuel host port token g s ≡ ended code c)
          × (outgoing c.socket ≡ outgoing s1 ++ (introduction token ++ print_moves moves))
    start_run-Malformed fuel host token bytes rest port moves g s s1 opened short int_n fits plays e
          h =
        let (s', (c, done, same), o) = Sent-open net open_ (
          start_run-Sent net little lib fpu picks n game (Malformed code)
            (IsEnded net little lib fpu picks n game code) fuel host token bytes rest port moves g s
            s1 (Malformed-Finishes net little lib fpu picks n game code rest) opened short int_n
            fits plays e h) in
        (c, done, ap outgoing same ∙ o)
