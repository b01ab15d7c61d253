-- ===== src/Client/Upholds/Handshake.antt =====
-- The messages of the handshake and the orders, whatever the socket does and the server sends.
use russian_ai_cup.Base.{ℕ, ◌^◌, ◌%◌, ℤ, length, to_signed, Bool, true, pos, List, arith}
use russian_ai_cup.Model.Move.{Move}
use russian_ai_cup.Client.Monad.{Platform, Caches}
use russian_ai_cup.Client.Scalars.{write_enum, write_boolean, write_int, write_string}
use russian_ai_cup.Client.Messages.{
  team_size, game_context, write_token, read_team_size, write_protocol_version, read_game_context,
  write_move,
}
use russian_ai_cup.Client.Upholds.{IsSteady, Upholds, bind-Upholds, write_bytes-Upholds}
use russian_ai_cup.Client.Upholds.Readers.{read_int-Upholds, expect_present-Upholds, reading}
use russian_ai_cup.Client.Upholds.Turns.{read_message_type-Upholds, ensure_message_type-Upholds}

module _ {S : Type 0} (p : Platform S) {P : Caches → Caches → Type 0} (steady : IsSteady P) where
  write_enum-Upholds : (v : ℤ) → Upholds P (write_enum p v)
  unfolding write_enum
  write_enum-Upholds v = write_bytes-Upholds steady p _

  write_boolean-Upholds : (b : Bool) → Upholds P (write_boolean p b)
  unfolding write_boolean
  write_boolean-Upholds b = write_bytes-Upholds steady p _

  write_int-Upholds : (v : ℤ) → Upholds P (write_int p v)
  unfolding write_int
  write_int-Upholds v = write_bytes-Upholds steady p _

  write_string-Upholds : (text : List ℕ) → Upholds P (write_string p text)
  unfolding write_string
  write_string-Upholds text =
      bind-Upholds steady (write_int-Upholds (to_signed (2 ^ 32) (length text % 2 ^ 32)))
        (λ _. write_bytes-Upholds steady p text)

  pub write_token-Upholds : (token : List ℕ) → Upholds P (write_token p token)
  unfolding write_token
  write_token-Upholds token =
      bind-Upholds steady (write_enum-Upholds _) (λ _. write_string-Upholds token)

  pub write_protocol_version-Upholds : Upholds P (write_protocol_version p)
  unfolding write_protocol_version
  write_protocol_version-Upholds =
      bind-Upholds steady (write_enum-Upholds _) (λ _. write_int-Upholds (pos 2))

  pub read_team_size-Upholds : Upholds P (read_team_size p)
  unfolding read_team_size
  read_team_size-Upholds = bind-Upholds steady (read_message_type-Upholds p steady) (λ type.
      bind-Upholds steady (ensure_message_type-Upholds p steady type team_size)
        (λ _. read_int-Upholds p steady))

  pub read_game_context-Upholds : Upholds P (read_game_context p)
  unfolding read_game_context
  read_game_context-Upholds = bind-Upholds steady (read_message_type-Upholds p steady) (λ type.
      bind-Upholds steady (ensure_message_type-Upholds p steady type game_context) (λ _.
        bind-Upholds steady (expect_present-Upholds p steady 10017 (omega arith))
          (λ _. search reading depth 120 fits 4000)))

  pub write_move-Upholds : (m : Move) → Upholds P (write_move p m)
  unfolding write_move
  write_move-Upholds m = bind-Upholds steady (write_enum-Upholds _) (λ _.
      bind-Upholds steady (write_boolean-Upholds true) (λ _.
        bind-Upholds steady (write_enum-Upholds _) (λ _.
          bind-Upholds steady (write_enum-Upholds _)
            (λ _. bind-Upholds steady (write_int-Upholds _) (λ _. write_int-Upholds _)))))
