-- ===== src/Client/Wire/Errors/Turn.antt =====
-- What readPlayerContext refuses: the malformed messages and the code that the process ends with.
use russian_ai_cup.Base.{
  ℕ, zero, suc, ◌≡◌, ◌≢◌, refl, ℤ, pos, negsuc, ◌==ℤ◌, IsSigned, true, false, List, [], ◌++◌, arith,
}
use russian_ai_cup.Model.Trooper.{Trooper}
use russian_ai_cup.Client.Monad.{Platform, Caches}
use russian_ai_cup.Client.Messages.{
  message_type_code, message_type_of, player_context, ensure_message_type, read_player_context,
}
use russian_ai_cup.Client.Stream.{IsStream}
use russian_ai_cup.Client.Takes.{Takes-map, pure-Takes, ◌into◌then◌}
use russian_ai_cup.Client.Rejects.{Rejects, fail-Rejects, stops, ◌into◌rejects◌}
use russian_ai_cup.Client.Wire.Scalars.{
  print_boolean, print_enum, read_enum-Takes, read_boolean-Takes,
}
use russian_ai_cup.Client.Wire.Units.{TrooperFits, print_trooper, read_trooper-Takes}
use russian_ai_cup.Client.Wire.World.{no_caches}
use russian_ai_cup.Client.Wire.Messages.{read_message_type-Takes}
use russian_ai_cup.Client.Wire.GameContext.{print_type}
use russian_ai_cup.Client.Wire.Errors.{absent, read_trooper-Rejects}
use russian_ai_cup.Client.Wire.Errors.World.{MalformedWorld, read_world-Rejects}

-- The messages that a client with the caches `k` refuses as a turn: another type, no trooper, or, if
-- it is new, a malformed world.
pub data MalformedTurn (k : Caches) : List ℕ → ℕ → Type 0 where
  unexpected_type :
      (type : ℤ)
      → IsSigned 256 type
      → type ≢ pos 1
      → type ≢ pos 6
      → MalformedTurn k (print_enum type) 10011
  absent_trooper :
      MalformedTurn k
        (print_type player_context ++ (print_boolean true ++ print_boolean false))
        10006
  bad_world :
      (t : Trooper) (xs : List ℕ) (code : ℕ)
      → k ≡ no_caches
      → TrooperFits t
      → MalformedWorld xs code
      → MalformedTurn k
          (print_type player_context ++ (print_boolean true ++ (print_trooper t ++ xs)))
          code

message_type-code : (v : ℤ) → message_type_code (message_type_of v) ≡ v
message_type-code (pos zero) = refl
message_type-code (pos (suc zero)) = refl
message_type-code (pos (suc (suc zero))) = refl
message_type-code (pos (suc (suc (suc zero)))) = refl
message_type-code (pos (suc (suc (suc (suc zero))))) = refl
message_type-code (pos (suc (suc (suc (suc (suc zero)))))) = refl
message_type-code (pos (suc (suc (suc (suc (suc (suc zero))))))) = refl
message_type-code (pos (suc (suc (suc (suc (suc (suc (suc zero)))))))) = refl
message_type-code (pos (suc (suc (suc (suc (suc (suc (suc (suc n))))))))) = refl
message_type-code (negsuc n) = refl

other_type : (a b : ℤ) → a ≢ b → (a ==ℤ b) ≡ false
other_type a b h = ground arith

module _ {S : Type 0} {p : Platform S} (net : IsStream p) (little : p.little_endian ≡ true) where
  -- On a little-endian machine with a stream for a socket: readPlayerContext ends the process by
  -- exit(10011) on a message of any type but GAME_OVER and PLAYER_CONTEXT, by exit(10006) on a turn
  -- without its trooper, and, in a new client, on a turn with a malformed world by exit with the
  -- code of the world's first error, whatever follows; it has sent nothing. The errors of a world: it
  -- is absent (10002), a negative count of players (10003), troopers (10005), bonuses (10009),
  -- columns (10007) or cells of a column (10008), an absent player (10004), trooper (10006) or bonus
  -- (10010) behind any number of good ones, a name of length -1 (10014), a negative width (10018),
  -- height (10019) or number of stances (10020) of the visibilities.
  pub read_player_context-Rejects :
      (k : Caches) (xs : List ℕ) (code : ℕ)
      → MalformedTurn k xs code
      → Rejects net (read_player_context p) k xs code
  unfolding read_player_context ensure_message_type
  read_player_context-Rejects k _ _ (unexpected_type type h over turn) =
      ◌into◌rejects◌ {ys = []}
        (Takes-map (read_enum-Takes net little type k h) message_type_of refl) _
        (rw (message_type-code type, other_type type (pos 1) over)
          (stops _ (rw (other_type type (pos 6) turn) (fail-Rejects net k 10011))))
  read_player_context-Rejects k _ _ absent_trooper =
      read_message_type-Takes net little player_context k (omega arith, refl)
      into _ rejects pure-Takes net tt k
      into _ rejects read_boolean-Takes net little true k
      into _ rejects stops _ (read_trooper-Rejects net little k (print_boolean false) 10006 absent)
  read_player_context-Rejects k _ _ (bad_world t xs code fresh h bad) =
      read_message_type-Takes net little player_context k (omega arith, refl)
      into _ rejects pure-Takes net tt k
      into _ rejects read_boolean-Takes net little true k
      into _ rejects read_trooper-Takes net little t k h
      into _ rejects stops _ (rw fresh (read_world-Rejects net little xs code bad))
