-- ===== src/Client/Upholds/Readers.antt =====
-- The readers and writers of the client, whatever the socket does and the server sends.
use russian_ai_cup.Base.{ℕ, ℤ, pos, negsuc, List, of_signed, ◌^◌, ◌==ℤ◌, arith}
use russian_ai_cup.Client.Monad.{Platform, Caches, Action, exit, undefined, pure, fail}
use russian_ai_cup.Client.Scalars.{
  read_enum, read_boolean, read_int, read_long, read_double, read_string,
}
use russian_ai_cup.Client.Units.{
  read_count, expect_present, read_player, read_players, read_trooper, read_troopers, read_bonus,
  read_bonuses,
}
use russian_ai_cup.Client.Upholds.{
  IsCode, IsSteady, Upholds, pure-Upholds, exit-Upholds, undefined-Upholds, if-Upholds,
  bind-Upholds, repeat-Upholds, read_bytes-Upholds,
}

module _ {S : Type 0} (p : Platform S) {P : Caches → Caches → Type 0} (steady : IsSteady P) where
  pub read_enum-Upholds : Upholds P (read_enum p)
  unfolding read_enum
  read_enum-Upholds =
      bind-Upholds steady (read_bytes-Upholds steady p 1) (λ a. pure-Upholds steady _)

  pub read_boolean-Upholds : Upholds P (read_boolean p)
  unfolding read_boolean
  read_boolean-Upholds =
      bind-Upholds steady (read_bytes-Upholds steady p 1) (λ a. pure-Upholds steady _)

  pub read_int-Upholds : Upholds P (read_int p)
  unfolding read_int
  read_int-Upholds =
      bind-Upholds steady (read_bytes-Upholds steady p 4) (λ a. pure-Upholds steady _)

  pub read_long-Upholds : Upholds P (read_long p)
  unfolding read_long
  read_long-Upholds =
      bind-Upholds steady (read_bytes-Upholds steady p 8) (λ a. pure-Upholds steady _)

  pub read_double-Upholds : Upholds P (read_double p)
  unfolding read_double
  read_double-Upholds = bind-Upholds steady read_long-Upholds (λ a. pure-Upholds steady _)

  sized :
      (n : ℤ) (bytes : List ℕ)
      → Upholds P
          (elim n as (λ _. Action S (List ℕ)) [ pos _ ↦ pure bytes | negsuc _ ↦ fail undefined ])
  sized (pos n) bytes = pure-Upholds steady bytes
  sized (negsuc n) bytes = undefined-Upholds steady

  pub read_string-Upholds : Upholds P (read_string p)
  unfolding read_string
  read_string-Upholds = bind-Upholds steady read_int-Upholds (λ n.
      if-Upholds steady (n ==ℤ negsuc 0) (exit-Upholds steady 10014 (omega arith))
        (bind-Upholds steady (read_bytes-Upholds steady p (of_signed (2 ^ 32) n)) (sized n)))

  counted :
      (code : ℕ) (n : ℤ)
      → IsCode code
      → Upholds P (elim n as (λ _. Action S ℕ) [ pos n ↦ pure n | negsuc _ ↦ fail (exit code) ])
  counted code (pos n) h = pure-Upholds steady n
  counted code (negsuc n) h = exit-Upholds steady code h

  pub read_count-Upholds : (code : ℕ) → IsCode code → Upholds P (read_count p code)
  unfolding read_count
  read_count-Upholds code h = bind-Upholds steady read_int-Upholds (λ n. counted code n h)

  pub expect_present-Upholds : (code : ℕ) → IsCode code → Upholds P (expect_present p code)
  unfolding expect_present
  expect_present-Upholds code h =
      bind-Upholds steady read_boolean-Upholds
        (λ b. if-Upholds steady b (pure-Upholds steady tt) (exit-Upholds steady code h))

-- The steps of a method that reads one thing after the other.
pub ruleset reading = (
  bind-Upholds, pure-Upholds, read_enum-Upholds, read_boolean-Upholds, read_int-Upholds,
  read_long-Upholds, read_double-Upholds, read_string-Upholds,
)

module _ {S : Type 0} (p : Platform S) {P : Caches → Caches → Type 0} (steady : IsSteady P) where
  read_player-Upholds : Upholds P (read_player p)
  unfolding read_player
  read_player-Upholds =
      bind-Upholds steady (expect_present-Upholds p steady 10004 (omega arith))
        (λ present. search reading depth 40)

  pub read_trooper-Upholds : Upholds P (read_trooper p)
  unfolding read_trooper
  read_trooper-Upholds =
      bind-Upholds steady (expect_present-Upholds p steady 10006 (omega arith))
        (λ present. search reading depth 80 fits 2000)

  read_bonus-Upholds : Upholds P (read_bonus p)
  unfolding read_bonus
  read_bonus-Upholds =
      bind-Upholds steady (expect_present-Upholds p steady 10010 (omega arith))
        (λ present. search reading depth 40)

  pub read_players-Upholds : Upholds P (read_players p)
  unfolding read_players
  read_players-Upholds =
      bind-Upholds steady (read_count-Upholds p steady 10003 (omega arith))
        (λ n. repeat-Upholds steady n read_player-Upholds)

  pub read_troopers-Upholds : Upholds P (read_troopers p)
  unfolding read_troopers
  read_troopers-Upholds =
      bind-Upholds steady (read_count-Upholds p steady 10005 (omega arith))
        (λ n. repeat-Upholds steady n read_trooper-Upholds)

  pub read_bonuses-Upholds : Upholds P (read_bonuses p)
  unfolding read_bonuses
  read_bonuses-Upholds =
      bind-Upholds steady (read_count-Upholds p steady 10009 (omega arith))
        (λ n. repeat-Upholds steady n read_bonus-Upholds)
