-- ===== src/Runner.antt =====
-- Runner::run and `main` (Runner.cpp): the handshake, then one turn for every player context.
pub mod Sent
pub mod Session
pub mod Plays
pub mod Loop
pub mod Program
pub mod Serves
pub mod Legal
pub mod Cut
pub mod Greeting
pub mod Codes
pub mod Main
use russian_ai_cup.Base.{
  ℕ, zero, suc, ℤ, pos, negsuc, ltb, Bool, true, false, Option, none, some, List, [], ◌∷◌,
  replicate, if◌then◌else◌,
}
use russian_ai_cup.Model.Double.{Fpu}
use russian_ai_cup.Model.Game.{Game}
use russian_ai_cup.Model.Move.{Move}
use russian_ai_cup.Model.World.{PlayerContext}
use russian_ai_cup.Client.Monad.{Platform, Client, Result, ok, exit, undefined}
use russian_ai_cup.Client.Messages.{
  connect, write_token, read_team_size, write_protocol_version, read_game_context,
  read_player_context, write_move,
}
use russian_ai_cup.Strategy.Turns.{
  Library, Globals, Reply, ordered, stopped, undefined_reply, still_picking, run_turn,
}

-- What the process has come to, with the client it has then. `running` is a run that is longer than
-- the fuel: of the outer loop, one round for each context, or of a turn's search for a target.
pub data Run (S R : Type 0) : Type 0 where
  finished : Client S → Globals R → Run S R
  ended : ℕ → Client S → Run S R
  broken : Client S → Run S R
  running : Client S → Run S R

-- A method of the client, then the rest of the run.
unfoldable pub after : {S R A : Type 0} → Result A × Client S → (A → Client S → Run S R) → Run S R
after (ok a, c) next = next a c
after (exit code, c) next = ended code c
after (undefined, c) next = broken c

-- `strategies[i]` is there: the strategies keep no state, so their number is all there is of them.
abbrev pub has_strategy : ℤ → ℤ → Bool
has_strategy (pos team_size) (pos i) = ltb i team_size
has_strategy _ _ = false

-- "127.0.0.1", "31001" and "0000000000000000".
abbrev pub default_host : List ℕ
default_host = b'1' ∷ b'2' ∷ b'7' ∷ b'.' ∷ b'0' ∷ b'.' ∷ b'0' ∷ b'.' ∷ b'1' ∷ []

abbrev pub default_port : List ℕ
default_port = b'3' ∷ b'1' ∷ b'0' ∷ b'0' ∷ b'1' ∷ []

abbrev pub default_token : List ℕ
default_token = replicate 16 b'0'

module _ {S R : Type 0} (p : Platform S) (lib : Library R) (fpu : Fpu) (picks : ℕ) where
  -- One turn, its order sent.
  unfoldable pub take_turn :
      ℤ → Game → PlayerContext → Client S → Globals R → (Client S → Globals R → Run S R) → Run S R
  unfolding after
  take_turn team_size game context c g next =
      if has_strategy team_size context.trooper.teammate_index
      then elim (run_turn lib fpu picks context.trooper context.world game g) [
        | ordered move g' ↦ after (write_move p move c) (λ _ c'. next c' g')
        | stopped code ↦ ended code c
        | undefined_reply ↦ broken c
        | still_picking ↦ running c
      ]
      else broken c

  -- The `while` of `run`.
  unfoldable pub run_turns : ℕ → ℤ → Game → Client S → Globals R → Run S R
  unfolding take_turn after
  run_turns zero team_size game c g = running c
  run_turns (suc fuel) team_size game c g = after (read_player_context p c) (λ context c'.
      elim context [
        | none ↦ finished c' g
        | some turn ↦ take_turn team_size game turn c' g (run_turns fuel team_size game)
      ])

  unfoldable pub run : ℕ → List ℕ → Globals R → Client S → Run S R
  unfolding after
  run fuel token g c = after (write_token p token c) (λ _ c1.
      after (read_team_size p c1) (λ team_size c2.
        after (write_protocol_version p c2)
          (λ _ c3. after (read_game_context p c3) (λ game c4. run_turns fuel team_size game c4 g))))

  -- The runner is built, then run.
  unfoldable pub start_run : ℕ → List ℕ → ℤ → List ℕ → Globals R → S → Run S R
  unfolding run
  start_run fuel host port token g s = after (connect p host port s) (λ _ c. run fuel token g c)

  -- `main`, with the C library's `atoi`: `argv` holds the program's name, then its arguments.
  unfoldable pub main : (List ℕ → ℤ) → ℕ → List (List ℕ) → Globals R → S → Run S R
  unfolding start_run
  main atoi fuel (program ∷ host ∷ port ∷ token ∷ []) g s =
      start_run fuel host (atoi port) token g s
  main atoi fuel argv g s = start_run fuel default_host (atoi default_port) default_token g s
