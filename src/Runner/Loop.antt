-- ===== src/Runner/Loop.antt =====
-- The whole program over a game that the server plays, whatever the game ends with.
use mathlib.Core.List.{map}
use russian_ai_cup.Base.{
  ℕ, zero, suc, ◌+◌, ◌^◌, ◌<◌, ◌≡◌, refl, sym, ap, subst, ◌∙◌, ℤ, true, some, List, [], ◌∷◌, ◌++◌,
  append_assoc, concat, length, to_signed, of_signed, arith,
}
use russian_ai_cup.Model.Double.{Fpu}
use russian_ai_cup.Model.Game.{Game}
use russian_ai_cup.Model.Move.{Move}
use russian_ai_cup.Model.World.{PlayerContext}
use russian_ai_cup.Client.Monad.{Platform, Caches, ok}
use russian_ai_cup.Client.Messages.{connect, read_player_context}
use russian_ai_cup.Client.Stream.{IsStream}
use russian_ai_cup.Client.Takes.{Takes}
use russian_ai_cup.Client.Wire.Scalars.{IsInt}
use russian_ai_cup.Client.Wire.World.{no_caches, terrain_of}
use russian_ai_cup.Client.Wire.Messages.{
  print_player_context, print_terrain, read_player_context-first, read_player_context-later,
}
use russian_ai_cup.Client.Wire.GameContext.{GameFits}
use russian_ai_cup.Client.Wire.Output.{print_move}
use russian_ai_cup.Strategy.Turns.{Library, Globals}
use russian_ai_cup.Runner.{Run, run_turns, start_run}
use russian_ai_cup.Runner.Sent.{Sent, Sent-then, Sent-from, after-ok}
use russian_ai_cup.Runner.Session.{greeting, introduction, handshake-Sent, turn-Sent}
use russian_ai_cup.Runner.Plays.{Ordered, Plays, ending, opening, later}

-- The orders on the wire.
abbrev pub print_moves : List Move → List ℕ
print_moves moves = concat (map print_move moves)

module _ {S R : Type 0} {p : Platform S} (net : IsStream p) (little : p.little_endian ≡ true)
    (lib : Library R) (fpu : Fpu) (picks : ℕ) (n : ℤ) (game : Game) where
  open net use {incoming, outgoing}

  pub connect-opened :
      (host : List ℕ) (port : ℤ) (s s1 : S)
      → p.open_socket host (to_signed (2 ^ 16) (of_signed (2 ^ 16) port)) s ≡ (true, s1)
      → connect p host port s ≡ (ok tt, record { socket = s1; caches = no_caches })
  unfolding connect
  connect-opened host port s s1 e = rw (connect, e) refl

  -- The bytes of a message and what follows them, behind an equation.
  pub behind :
      {bytes xs : List ℕ} (s : S) (rest : List ℕ)
      → incoming s ≡ bytes ++ rest
      → bytes ≡ xs
      → incoming s ≡ xs ++ rest
  behind s rest e same = e ∙ ap (λ (l : List ℕ). l ++ rest) same

  -- `Post` says what the process has come to, with the socket and the bytes that follow the game's.
  module _ (Last : Caches → Globals R → List ℕ → Type 0)
      (Post : Run S R → S → List ℕ → Type 0) where
    -- What the loop does from the socket `s` with the caches `k`, over a connection that may break:
    -- it sends the orders, or a proper prefix of them.
    abbrev pub Ends : ℕ → Caches → Globals R → S → List ℕ → List Move → Type 0
    Ends fuel k g s rest moves =
        Sent net (λ r s'. Post r s' rest) (print_moves moves) s
          (run_turns p lib fpu picks fuel n game (record { socket = s; caches = k }) g)

    -- One turn and the rest of the game.
    and_then :
        (fuel : ℕ) (k k1 : Caches) (g g1 : Globals R) (s : S) (c : PlayerContext) (move : Move)
        (print bytes rest : List ℕ) (moves : List Move)
        → Takes net (read_player_context p) k print (some c) k1
        → incoming s ≡ (print ++ bytes) ++ rest
        → Ordered lib fpu picks n game c g move g1
        → ((s1 : S) → incoming s1 ≡ bytes ++ rest → Ends fuel k1 g1 s1 rest moves)
        → Ends (suc fuel) k g s rest (move ∷ moves)
    and_then fuel k k1 g g1 s c move print bytes rest moves takes e turn next =
        Sent-then net
          (turn-Sent net little lib fpu picks fuel n game g g1 s k k1 c move print (bytes ++ rest)
            takes (e ∙ append_assoc print bytes rest) turn.strategy turn.order)
          (λ s1 (r1, i1). Sent-from net r1 refl (next s1 i1))

    -- What the loop does at the end of the game, with `rest` behind it.
    abbrev pub Finishes : List ℕ → Type 0
    Finishes rest =
        (fuel : ℕ) (k : Caches) (g : Globals R) (s : S) (bytes : List ℕ)
        → Last k g bytes
        → incoming s ≡ bytes ++ rest
        → Ends (suc fuel) k g s rest []

    run_turns-Plays :
        (fuel : ℕ) {k : Caches} {g : Globals R} {bytes : List ℕ} {moves : List Move} (s : S)
        (rest : List ℕ)
        → Finishes rest
        → Plays lib fpu picks n game Last k g bytes moves
        → incoming s ≡ bytes ++ rest
        → length moves < fuel
        → Ends fuel k g s rest moves
    run_turns-Plays zero s rest finish plays e h = absurd (omega arith)
    run_turns-Plays (suc fuel) {k} {g} {bytes} s rest finish (ending last m) e h =
        rw m (finish fuel k g s bytes last e)
    run_turns-Plays (suc fuel) {g = g} s rest finish
          (opening {g1 = g1} {later_bytes = bytes} {later_moves = moves} c move width height stances
            fresh ht hw hc hv b turn m plays)
          e h =
        rw (m, fresh)
          (and_then fuel no_caches (terrain_of c.world) g g1 s c move
            (print_player_context c (print_terrain c.world width height stances)) bytes rest moves
            (read_player_context-first net little c width height stances ht hw hc hv)
            (behind s rest e b) turn
            (λ s1 i.
              run_turns-Plays fuel s1 rest finish plays i (omega (arith, ap (length {0}) m))))
    run_turns-Plays (suc fuel) {k} {g} s rest finish
          (later {g1 = g1} {later_bytes = bytes} {later_moves = moves} c move kept ht hw b turn m
            plays)
          e h =
        rw m (
          and_then fuel k k g g1 s c move (print_player_context c []) bytes rest moves
            (subst (λ x. Takes net (read_player_context p) x (print_player_context c []) (some c) x)
              (sym kept) (read_player_context-later net little c ht hw))
            (behind s rest e b) turn
            (λ s1 i.
              run_turns-Plays fuel s1 rest finish plays i (omega (arith, ap (length {0}) m))))

    pub start_run-Sent :
        (fuel : ℕ) (host token bytes rest : List ℕ) (port : ℤ) (moves : List Move) (g : Globals R)
        (s s1 : S)
        → Finishes rest
        → p.open_socket host (to_signed (2 ^ 16) (of_signed (2 ^ 16) port)) s ≡ (true, s1)
        → length token + length token < 2 ^ 32
        → IsInt n
        → GameFits game
        → Plays lib fpu picks n game Last no_caches g bytes moves
        → incoming s1 ≡ greeting n game ++ (bytes ++ rest)
        → length moves < fuel
        → Sent net
            (λ r s'. Post r s' rest)
            (introduction token ++ print_moves moves)
            s1
            (start_run p lib fpu picks fuel host port token g s)
    unfolding start_run
    start_run-Sent fuel host token bytes rest port moves g s s1 finish opened short int_n fits plays
          e h =
        Sent-from net (after-ok _ (connect-opened host port s s1 opened)) refl (
          Sent-then net
            (handshake-Sent net little lib fpu picks fuel token (bytes ++ rest) n game g s1
              no_caches short int_n fits e)
            (λ s2 (r2, i2). Sent-from net r2 refl (run_turns-Plays fuel s2 rest finish plays i2 h)))
