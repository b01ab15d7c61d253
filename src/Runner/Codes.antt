-- ===== src/Runner/Codes.antt =====
-- How the whole program can end, whatever the socket does and the server sends.
use russian_ai_cup.Base.{
  ℕ, zero, suc, ◌≡◌, ◌⊎◌, inl, inr, ℤ, Bool, true, false, Option, none, some, List, if◌then◌else◌,
}
use russian_ai_cup.Model.Double.{Fpu}
use russian_ai_cup.Model.Game.{Game}
use russian_ai_cup.Model.World.{PlayerContext}
use russian_ai_cup.Client.Monad.{Platform, Client, Caches, Result, ok, exit, undefined, Action}
use russian_ai_cup.Client.Messages.{write_move}
use russian_ai_cup.Client.Upholds.{IsCode, Fine, Upholds}
use russian_ai_cup.Client.Upholds.Turns.{Kept, Kept-IsSteady, read_player_context-Upholds}
use russian_ai_cup.Client.Upholds.Handshake.{
  write_token-Upholds, write_protocol_version-Upholds, read_team_size-Upholds,
  read_game_context-Upholds, write_move-Upholds,
}
use russian_ai_cup.Strategy.Turns.{
  Library, Globals, Reply, ordered, stopped, undefined_reply, still_picking,
}
use russian_ai_cup.Strategy.Turns.Replies.{IsReply, run_turn-IsReply}
use russian_ai_cup.Runner.{
  Run, finished, ended, broken, running, after, has_strategy, take_turn, run_turns, run,
}

-- The codes of the program: those of the client, and the one of Trooper::getDamage.
abbrev pub IsExit : ℕ → Type 0
IsExit code = IsCode code ⊎ (code ≡ 10030)

module _ {S R : Type 0} where
  -- From a client with the caches `k`: an exit has a code of the program, and what the caches hold
  -- has stayed.
  abbrev pub EndsWell : Caches → Run S R → Type 0
  EndsWell k (finished c g) = Kept k c.caches
  EndsWell k (ended code c) = IsExit code × Kept k c.caches
  EndsWell k (broken c) = Kept k c.caches
  EndsWell k (running c) = Kept k c.caches

  after-EndsWell :
      {A : Type 0} (k : Caches) (r : Result A) (c : Client S) (next : A → Client S → Run S R)
      → Fine Kept k (r, c)
      → ((a : A) (c' : Client S) → Kept k c'.caches → EndsWell k (next a c'))
      → EndsWell k (after (r, c) next)
  unfolding after
  after-EndsWell k (ok a) c next (known, kept) go = go a c kept
  after-EndsWell k (exit code) c next (known, kept) go = (inl known, kept)
  after-EndsWell k undefined c next (known, kept) go = kept

  -- A method of the client, and then the rest of the run.
  step-EndsWell :
      {A : Type 0} {m : Action S A} (k : Caches) (c : Client S) (next : A → Client S → Run S R)
      → Upholds Kept m
      → Kept k c.caches
      → ((a : A) (c' : Client S) → Kept k c'.caches → EndsWell k (next a c'))
      → EndsWell k (after (m c) next)
  step-EndsWell {m = m} k c next holds kept go =
      let (known, more) = holds.at c in
      after-EndsWell k (m c).0 (m c).1 next (known, Kept-IsSteady.next kept more) go

module _ {S R : Type 0} (p : Platform S) (lib : Library R) (fpu : Fpu) (picks : ℕ) where
  -- An order, or the end of a turn without one.
  answered :
      (k : Caches) (c : Client S) (reply : Reply R) (next : Client S → Globals R → Run S R)
      → Kept k c.caches
      → IsReply reply
      → ((c' : Client S) (g : Globals R) → Kept k c'.caches → EndsWell k (next c' g))
      → EndsWell k (elim reply [
        | ordered move g' ↦ after (write_move p move c) (λ _ c'. next c' g')
        | stopped code ↦ ended code c
        | undefined_reply ↦ broken c
        | still_picking ↦ running c
      ])
  unfolding IsReply
  answered k c (ordered move g') next kept h go =
      step-EndsWell k c _ (write_move-Upholds p Kept-IsSteady move) kept
        (λ _ c' kept'. go c' g' kept')
  answered k c (stopped code) next kept h go = (inr h, kept)
  answered k c undefined_reply next kept h go = kept
  answered k c still_picking next kept h go = kept

  run_if :
      (k : Caches) (b : Bool) (r r' : Run S R)
      → EndsWell k r
      → EndsWell k r'
      → EndsWell k (if b then r else r')
  run_if k true r r' h h' = h
  run_if k false r r' h h' = h'

  turn-EndsWell :
      (k : Caches) (n : ℤ) (game : Game) (context : PlayerContext) (c : Client S) (g : Globals R)
      (next : Client S → Globals R → Run S R)
      → Kept k c.caches
      → ((c' : Client S) (g : Globals R) → Kept k c'.caches → EndsWell k (next c' g))
      → EndsWell k (take_turn p lib fpu picks n game context c g next)
  unfolding take_turn
  turn-EndsWell k n game context c g next kept go =
      run_if k (has_strategy n context.trooper.teammate_index) _ (broken c)
        (answered k c _ next kept
          (run_turn-IsReply lib fpu picks context.trooper context.world game g) go)
        kept

  next_context :
      (k : Caches) (n : ℤ) (game : Game) (context : Option PlayerContext) (c : Client S)
      (g : Globals R) (next : Client S → Globals R → Run S R)
      → Kept k c.caches
      → ((c' : Client S) (g : Globals R) → Kept k c'.caches → EndsWell k (next c' g))
      → EndsWell k (elim context [
        | none ↦ finished c g
        | some turn ↦ take_turn p lib fpu picks n game turn c g next
      ])
  next_context k n game none c g next kept go = kept
  next_context k n game (some turn) c g next kept go = turn-EndsWell k n game turn c g next kept go

  turns-EndsWell :
      (k : Caches) (fuel : ℕ) (n : ℤ) (game : Game) (c : Client S) (g : Globals R)
      → Kept k c.caches
      → EndsWell k (run_turns p lib fpu picks fuel n game c g)
  unfolding run_turns
  turns-EndsWell k zero n game c g kept = kept
  turns-EndsWell k (suc fuel) n game c g kept =
      step-EndsWell k c _ (read_player_context-Upholds p) kept (λ context c' kept'.
        next_context k n game context c' g (run_turns p lib fpu picks fuel n game) kept'
          (λ c'' g'' more. turns-EndsWell k fuel n game c'' g'' more))

  -- Whatever the socket does, the server sends and the strategy's library answers, from a client with
  -- any caches: Runner::run leaves the cells and the visibilities that the client has kept as they
  -- are, however it ends; and where it ends the process by exit(code), the code is one of 10001 to
  -- 10020, or 10030.
  pub run-EndsWell :
      (fuel : ℕ) (token : List ℕ) (g : Globals R) (c : Client S)
      → EndsWell c.caches (run p lib fpu picks fuel token g c)
  unfolding run
  run-EndsWell fuel token g c =
      let steady = Kept-IsSteady in
      let k : Caches = c.caches in
      step-EndsWell k c _ (write_token-Upholds p steady token) (steady.stays k) (λ _ c1 kept1.
        step-EndsWell k c1 _ (read_team_size-Upholds p steady) kept1 (λ n c2 kept2.
          step-EndsWell k c2 _ (write_protocol_version-Upholds p steady) kept2 (λ _ c3 kept3.
            step-EndsWell k c3 _ (read_game_context-Upholds p steady) kept3
              (λ game c4 kept4. turns-EndsWell k fuel n game c4 g kept4))))
