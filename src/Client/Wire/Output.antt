-- ===== src/Client/Wire/Output.antt =====
-- The messages that the strategy sends, on the wire.
use russian_ai_cup.Base.{
  ℕ, ◌+◌, ◌^◌, ◌%◌, ◌<◌, ◌≡◌, ℤ, pos, to_signed, of_signed, Bool, true, false, List, ◌++◌, length,
  arith,
}
use russian_ai_cup.Model.Move.{Move, action_type_code, direction_code}
use russian_ai_cup.Client.Monad.{Platform}
use russian_ai_cup.Client.Scalars.{
  bytes_of, store, reorder, write_enum, write_boolean, write_int, write_string,
}
use russian_ai_cup.Client.Messages.{
  authentication_token, protocol_version, move_message, message_type_code, write_token,
  write_protocol_version, write_move,
}
use russian_ai_cup.Client.Stream.{IsStream}
use russian_ai_cup.Client.Output.{Writes, write_bytes-Writes, ◌andthen◌}
use russian_ai_cup.Client.Wire.Scalars.{
  print_enum, print_boolean, print_int, print_string, is_little-eq,
}
use russian_ai_cup.Client.Wire.GameContext.{print_type}

abbrev pub print_move : Move → List ℕ
print_move m =
    print_type move_message
    ++ (print_boolean true
        ++ (print_enum (action_type_code m.action)
            ++ (print_enum (direction_code m.direction) ++ (print_int m.x ++ print_int m.y))))

reorder-store :
    {S : Type 0} (p : Platform S) (w v : ℕ)
    → p.little_endian ≡ true
    → reorder p (store p w v) ≡ bytes_of w v
unfolding reorder store
reorder-store p w v e = ground (arith, is_little-eq p e)

module _ {S : Type 0} {p : Platform S} (net : IsStream p) (little : p.little_endian ≡ true) where
  pub write_enum-Writes : (v : ℤ) → Writes net (write_enum p v) (print_enum v)
  unfolding write_enum
  write_enum-Writes v = write_bytes-Writes net (print_enum v)

  pub write_boolean-Writes : (b : Bool) → Writes net (write_boolean p b) (print_boolean b)
  unfolding write_boolean
  write_boolean-Writes true = write_bytes-Writes net (print_boolean true)
  write_boolean-Writes false = write_bytes-Writes net (print_boolean false)

  pub write_int-Writes : (v : ℤ) → Writes net (write_int p v) (print_int v)
  unfolding write_int
  write_int-Writes v =
      rw (reorder-store p 4 (of_signed (2 ^ 32) v) little) (write_bytes-Writes net (print_int v))

  pub write_string-Writes :
      (text : List ℕ)
      → length text + length text < 2 ^ 32
      → Writes net (write_string p text) (print_string text)
  unfolding write_string
  write_string-Writes text h =
      let size : to_signed (2 ^ 32) (length text % 2 ^ 32) ≡ pos (length text) = ground arith in
      rw size (write_int-Writes (pos (length text)) andthen write_bytes-Writes net text)

  -- On a little-endian machine writeToken sends the type of the message, the length of the token
  -- (below 2^31) and its bytes; or Send fails on a connection that can break and the process ends by
  -- exit(10013) with a proper prefix of this sent.
  pub write_token-Writes :
      (token : List ℕ)
      → length token + length token < 2 ^ 32
      → Writes net (write_token p token) (print_type authentication_token ++ print_string token)
  unfolding write_token
  write_token-Writes token h =
      write_enum-Writes (message_type_code authentication_token) andthen write_string-Writes token h

  pub write_protocol_version-Writes :
      Writes net (write_protocol_version p) (print_type protocol_version ++ print_int (pos 2))
  unfolding write_protocol_version
  write_protocol_version-Writes =
      write_enum-Writes (message_type_code protocol_version) andthen write_int-Writes (pos 2)

  -- On a little-endian machine writeMove sends the type of the message, the flag 1, the action, the
  -- direction, x and y, in this order, and nothing else; or Send fails on a connection that can
  -- break and the process ends by exit(10013) with a proper prefix of this sent.
  pub write_move-Writes : (m : Move) → Writes net (write_move p m) (print_move m)
  unfolding write_move
  write_move-Writes m =
      write_enum-Writes (message_type_code move_message)
      andthen write_boolean-Writes true
      andthen write_enum-Writes (action_type_code m.action)
      andthen write_enum-Writes (direction_code m.direction)
      andthen write_int-Writes m.x
      andthen write_int-Writes m.y
