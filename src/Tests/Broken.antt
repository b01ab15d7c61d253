-- ===== src/Tests/Broken.antt =====
-- Streams that end too early, and a server that sends what is no message.
use russian_ai_cup.Base.{ℕ, ◌≤◌, ◌<◌, ◌⊎◌, length, drop, ◌≡◌, refl, pos, List, [], ◌∷◌, ◌++◌, arith}
use russian_ai_cup.Model.Move.{Move}
use russian_ai_cup.Client.Messages.{player_context}
use russian_ai_cup.Client.Wire.World.{terrain_of}
use russian_ai_cup.Client.Wire.Messages.{print_player_context, print_terrain}
use russian_ai_cup.Client.Wire.GameContext.{print_type}
use russian_ai_cup.Strategy.Turn.{Turn}
use russian_ai_cup.Strategy.Turns.Fair.{sight}
use russian_ai_cup.Runner.{ended, run, start_run}
use russian_ai_cup.Runner.Session.{greeting, introduction}
use russian_ai_cup.Runner.Serves.{Answers, Serves}
use russian_ai_cup.Runner.Greeting.{token_message, start_run-greeting}
use russian_ai_cup.Client.Scalars.{bytes_of}
use russian_ai_cup.Client.Wire.GameContext.{print_game_context}
use russian_ai_cup.Runner.Codes.{EndsWell, run-EndsWell}
use russian_ai_cup.Client.Monad.{Client}
use russian_ai_cup.Tests.Socket.{Pipe, gone, drip, drip-IsStream, drip-IsOpen, full}
use russian_ai_cup.Tests.Samples.{rules, rules-GameFits}
use russian_ai_cup.Tests.Turns.{counter, easy}
use russian_ai_cup.Tests.Game.{seven, context, at_start, first_Fair}

-- The first turn, and then the first byte of a player context.
abbrev cut_bytes : List ℕ
cut_bytes = print_player_context context (print_terrain seven 7 1 3) ++ print_type player_context

abbrev one_turn : List Turn
one_turn = sight counter easy 5 rules first_Fair ∷ []

-- The server's team size, and the first byte of its game context.
abbrev six_bytes : List ℕ
six_bytes = 3 ∷ 3 ∷ 0 ∷ 0 ∷ 0 ∷ 5 ∷ []

greeting_split : greeting (pos 3) rules ≡ six_bytes ++ (1 ∷ drop 7 (greeting (pos 3) rules))
unfolding bytes_of print_game_context
greeting_split = refl

start_run-greeting_example :
    (c : Client Pipe) × (start_run drip counter easy 5 9 []
        (pos 31001)
        (48 ∷ [])
        at_start
        (full six_bytes)
      ≡ ended 10012 c)
    × (((length six_bytes < 5) × (gone c.socket ≡ token_message (48 ∷ [])))
        ⊎ ((5 ≤ length six_bytes) × (gone c.socket ≡ introduction (48 ∷ []))))
start_run-greeting_example =
    start_run-greeting drip-IsStream refl counter easy 5 9 [] (48 ∷ []) (pos 31001) (pos 3) rules
      at_start (full six_bytes) (full six_bytes) 1 (drop 7 (greeting (pos 3) rules)) drip-IsOpen
      refl (omega arith) (omega arith) rules-GameFits greeting_split

-- A server that answers with a byte that is no message, to a client that has the terrain.
run-EndsWell_example : EndsWell (terrain_of seven) (
    run drip counter easy 5 9
      (48 ∷ [])
      at_start
      (record { socket = full (9 ∷ []); caches = terrain_of seven }))
run-EndsWell_example =
    run-EndsWell drip counter easy 5 9 (48 ∷ []) at_start
      (record { socket = full (9 ∷ []); caches = terrain_of seven })
