-- ===== src/Runner/Session.antt =====
-- A session of Runner::run: the handshake, the end of the game, and a turn between them.
use russian_ai_cup.Base.{
  ℕ, suc, ◌+◌, ◌^◌, ◌<◌, ◌≡◌, refl, ◌∙◌, ℤ, pos, true, some, List, ◌++◌, append_assoc, length,
}
use russian_ai_cup.Model.Double.{Fpu}
use russian_ai_cup.Model.Game.{Game}
use russian_ai_cup.Model.Move.{Move}
use russian_ai_cup.Model.World.{PlayerContext}
use russian_ai_cup.Client.Monad.{Platform, Client, Caches}
use russian_ai_cup.Client.Messages.{
  read_player_context, write_move, authentication_token, protocol_version, team_size, game_over,
}
use russian_ai_cup.Client.Stream.{IsStream}
use russian_ai_cup.Client.Takes.{Takes}
use russian_ai_cup.Client.Output.{IsOpen}
use russian_ai_cup.Client.Wire.Scalars.{IsInt, print_int, print_string}
use russian_ai_cup.Client.Wire.Messages.{
  read_team_size-Takes, read_game_context-Takes, read_player_context-over,
}
use russian_ai_cup.Client.Wire.GameContext.{print_type, GameFits, print_game_context}
use russian_ai_cup.Client.Wire.Output.{
  write_token-Writes, write_protocol_version-Writes, write_move-Writes, print_move,
}
use russian_ai_cup.Runner.Sent.{
  after-ok, Sent, Sent-open, Sent-nothing, Sent-then, Sent-last, Sent-from, write-Sent, read-Sent,
}
use russian_ai_cup.Strategy.Turns.{Library, Globals, ordered, run_turn}
use russian_ai_cup.Runner.{Run, finished, after, has_strategy, take_turn, run_turns, run}

-- What the server sends before the turns, and what the client sends.
abbrev pub greeting : ℤ → Game → List ℕ
greeting n game = (print_type team_size ++ print_int n) ++ print_game_context game

abbrev pub introduction : List ℕ → List ℕ
introduction token =
    (print_type authentication_token ++ print_string token)
    ++ (print_type protocol_version ++ print_int (pos 2))

module _ {S R : Type 0} {p : Platform S} (net : IsStream p) (little : p.little_endian ≡ true)
    (lib : Library R) (fpu : Fpu) (picks : ℕ) where
  open net use {incoming, outgoing}

  -- The run has come to the turns, with the caches `k`, the globals `g` and `rest` to come.
  abbrev pub InTurns : ℕ → ℤ → Game → Caches → Globals R → List ℕ → Run S R → S → Type 0
  InTurns fuel n game k g rest r s =
      (r ≡ run_turns p lib fpu picks fuel n game (record { socket = s; caches = k }) g)
      × (incoming s ≡ rest)

  -- The handshake over a connection that may break.
  pub handshake-Sent :
      (fuel : ℕ) (token rest : List ℕ) (n : ℤ) (game : Game) (g : Globals R) (s : S) (k : Caches)
      → length token + length token < 2 ^ 32
      → IsInt n
      → GameFits game
      → incoming s ≡ greeting n game ++ rest
      → Sent net
          (InTurns fuel n game k g rest)
          (introduction token)
          s
          (run p lib fpu picks fuel token g (record { socket = s; caches = k }))
  unfolding run
  handshake-Sent fuel token rest n game g s k short int_n fits e =
      Sent-then net (write-Sent net (write_token-Writes net little token short) s k _)
        (λ s1 (r1, i1). Sent-from net r1 refl (
          read-Sent net (read_team_size-Takes net little n k int_n) s1
            (print_game_context game ++ rest) _
            (i1
              ∙ e
              ∙ append_assoc (print_type team_size ++ print_int n) (print_game_context game) rest)
            (λ s2 i2.
              Sent-last net (write-Sent net (write_protocol_version-Writes net little) s2 k _)
                (λ s3 (r3, i3). Sent-from net r3 refl (
                  read-Sent net (read_game_context-Takes net little game k fits) s3 rest _ (i3 ∙ i2)
                    (λ s4 i4. Sent-nothing net s4 (refl, i4) refl))))))

  turn-ordered :
      (fuel : ℕ) (n : ℤ) (game : Game) (g g' : Globals R) (context : PlayerContext) (move : Move)
      (c : Client S)
      → has_strategy n context.trooper.teammate_index ≡ true
      → run_turn lib fpu picks context.trooper context.world game g ≡ ordered move g'
      → take_turn p lib fpu picks n game context c g (run_turns p lib fpu picks fuel n game)
        ≡ after (write_move p move c) (λ _ c'. run_turns p lib fpu picks fuel n game c' g')
  unfolding take_turn
  turn-ordered fuel n game g g' context move c strategy order = rw (take_turn, strategy, order) refl

  -- A turn over a connection that may break.
  pub turn-Sent :
      (fuel : ℕ) (n : ℤ) (game : Game) (g g' : Globals R) (s : S) (k k' : Caches)
      (context : PlayerContext) (move : Move) (print rest : List ℕ)
      → Takes net (read_player_context p) k print (some context) k'
      → incoming s ≡ print ++ rest
      → has_strategy n context.trooper.teammate_index ≡ true
      → run_turn lib fpu picks context.trooper context.world game g ≡ ordered move g'
      → Sent net
          (InTurns fuel n game k' g' rest)
          (print_move move)
          s
          (run_turns p lib fpu picks (suc fuel) n game (record { socket = s; caches = k }) g)
  unfolding run_turns
  turn-Sent fuel n game g g' s k k' context move print rest takes e strategy order =
      read-Sent net takes s rest _ e (λ s1 i1.
        Sent-from net
          (turn-ordered fuel n game g g' context move (record { socket = s1; caches = k' }) strategy
            order)
          refl
          (Sent-last net (write-Sent net (write_move-Writes net little move) s1 k' _)
            (λ s2 (r2, i2). Sent-nothing net s2 (r2, i2 ∙ i1) refl)))

module _ {S R : Type 0} {p : Platform S} (net : IsStream p) (open_ : IsOpen net)
    (little : p.little_endian ≡ true) (lib : Library R) (fpu : Fpu) (picks : ℕ) where
  open net use {incoming, outgoing}

  -- The handshake, on a little-endian machine over a connection that does not break, with a token
  -- below 2^31 bytes and numbers that fit their fields: the runner sends its token and the protocol
  -- version, reads the team's size and the game's constants, and goes on with the turns at the bytes
  -- that follow them; the caches stay as they are.
  pub run-handshake :
      (fuel : ℕ) (token rest : List ℕ) (n : ℤ) (game : Game) (g : Globals R) (s : S) (k : Caches)
      → length token + length token < 2 ^ 32
      → IsInt n
      → GameFits game
      → incoming s ≡ greeting n game ++ rest
      → (s' : S) × (run p lib fpu picks fuel token g (record { socket = s; caches = k })
          ≡ run_turns p lib fpu picks fuel n game (record { socket = s'; caches = k }) g)
        × (outgoing s' ≡ outgoing s ++ introduction token)
        × (incoming s' ≡ rest)
  run-handshake fuel token rest n game g s k short int_n fits e =
      let (s', (r, i), o) =
        Sent-open net open_ (
          handshake-Sent net little lib fpu picks fuel token rest n game g s k short int_n fits
            e) in
      (s', r, o, i)

  -- On a little-endian machine over a connection that does not break: at a game-over message the
  -- loop of turns ends, with nothing sent and the caches and the globals as they were.
  pub run_turns-over :
      (fuel : ℕ) (n : ℤ) (game : Game) (g : Globals R) (s : S) (k : Caches) (rest : List ℕ)
      → incoming s ≡ print_type game_over ++ rest
      → (s' : S) × (run_turns p lib fpu picks
            (suc fuel)
            n
            game
            (record { socket = s; caches = k })
            g
          ≡ finished (record { socket = s'; caches = k }) g)
        × (incoming s' ≡ rest)
        × (outgoing s' ≡ outgoing s)
  unfolding run_turns
  run_turns-over fuel n game g s k rest e =
      let (s', r, i, o) = (read_player_context-over net little k).whole s rest e in
      (s', after-ok _ r, i, o)

  -- A turn, on a little-endian machine over a connection that does not break: at a player context
  -- (which the reader takes as `print`, into the caches k') for a trooper that has a strategy and
  -- whose turn ends with an order, the loop sends the order and goes on at the bytes that follow,
  -- with the caches and the globals that the turn left.
  pub run_turns-turn :
      (fuel : ℕ) (n : ℤ) (game : Game) (g g' : Globals R) (s : S) (k k' : Caches)
      (context : PlayerContext) (move : Move) (print rest : List ℕ)
      → Takes net (read_player_context p) k print (some context) k'
      → incoming s ≡ print ++ rest
      → has_strategy n context.trooper.teammate_index ≡ true
      → run_turn lib fpu picks context.trooper context.world game g ≡ ordered move g'
      → (s' : S) × (run_turns p lib fpu picks
            (suc fuel)
            n
            game
            (record { socket = s; caches = k })
            g
          ≡ run_turns p lib fpu picks fuel n game (record { socket = s'; caches = k' }) g')
        × (incoming s' ≡ rest)
        × (outgoing s' ≡ outgoing s ++ print_move move)
  run_turns-turn fuel n game g g' s k k' context move print rest takes e strategy order =
      let (s', (r, i), o) = Sent-open net open_ (
        turn-Sent net little lib fpu picks fuel n game g g' s k k' context move print rest takes e
          strategy order) in
      (s', r, i, o)
