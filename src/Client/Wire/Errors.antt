-- ===== src/Client/Wire/Errors.antt =====
-- What the readers of lists refuse: a negative count, or an item that the format does not have.
use russian_ai_cup.Base.{
  ℕ, ◌≡◌, refl, ◌<◌, ℤ, pos, negsuc, Bool, true, false, List, [], ◌∷◌, ◌++◌, append-nil, concat,
  length, All, if◌then◌else◌, arith,
}
use mathlib.Core.List.{map}
use russian_ai_cup.Model.Trooper.{Trooper}
use russian_ai_cup.Model.Units.{Player, Bonus}
use russian_ai_cup.Client.Monad.{Platform, Caches, Action, exit, pure, fail, ◌>>=◌}
use russian_ai_cup.Client.Scalars.{read_string}
use russian_ai_cup.Client.Units.{
  repeat, read_count, expect_present, read_player, read_players, read_trooper, read_troopers,
  read_bonus, read_bonuses,
}
use russian_ai_cup.Client.Stream.{IsStream}
use russian_ai_cup.Client.Takes.{Takes}
use russian_ai_cup.Client.Rejects.{Rejects, fail-Rejects, stops, repeat-Rejects, ◌into◌rejects◌}
use russian_ai_cup.Client.Wire.Scalars.{
  IsInt, IsLong, print_boolean, print_int, print_long, read_boolean-Takes, read_int-Takes,
  read_long-Takes,
}
use russian_ai_cup.Client.Wire.Units.{
  read_count-Takes, expect_present-Takes, TrooperFits, BonusFits, PlayerFits, print_trooper,
  print_bonus, print_player, read_trooper-Takes, read_bonus-Takes, read_player-Takes,
}
pub mod Terrain
pub mod World
pub mod Turn

-- A list whose count is negative, or whose item behind the good ones `xs` is malformed: the bytes,
-- and the code that the process ends with.
pub data MalformedList {A : Type 0} (Fits : A → Type 0) (print : A → List ℕ) (count_code : ℕ)
    (Item : List ℕ → ℕ → Type 0) : List ℕ → ℕ → Type 0 where
  negative_count :
      (n : ℕ)
      → IsInt (negsuc n)
      → MalformedList Fits print count_code Item (print_int (negsuc n)) count_code
  bad_item :
      (n : ℕ) (xs : List A) (ys : List ℕ) (code : ℕ)
      → IsInt (pos n)
      → length xs < n
      → All Fits xs
      → Item ys code
      → MalformedList Fits print count_code Item
          (print_int (pos n) ++ (concat (map print xs) ++ ys))
          code

-- An item whose flag says that it is absent.
pub data AbsentItem (item_code : ℕ) : List ℕ → ℕ → Type 0 where
  absent : AbsentItem item_code (print_boolean false) item_code

-- A player that is absent, or whose name has the length that stands for NULL.
pub data MalformedPlayer : List ℕ → ℕ → Type 0 where
  absent_player : MalformedPlayer (print_boolean false) 10004
  null_name :
      (id : ℤ)
      → IsLong id
      → MalformedPlayer
          (concat (print_boolean true ∷ print_long id ∷ print_int (negsuc 0) ∷ []))
          10014

module _ {S : Type 0} {p : Platform S} (net : IsStream p) (little : p.little_endian ≡ true) where
  pub read_count-Rejects :
      (code n : ℕ) (k : Caches)
      → IsInt (negsuc n)
      → Rejects net (read_count p code) k (print_int (negsuc n)) code
  unfolding read_count
  read_count-Rejects code n k h = rw (append-nil (print_int (negsuc n))) at (
      read_int-Takes net little (negsuc n) k h
      into (λ c. elim c [ pos n ↦ pure n | negsuc _ ↦ fail (exit code) ]) rejects
        fail-Rejects net k code)

  pub expect_present-Rejects :
      (code : ℕ) (k : Caches) → Rejects net (expect_present p code) k (print_boolean false) code
  unfolding expect_present
  expect_present-Rejects code k = rw (append-nil (print_boolean false)) at (
      read_boolean-Takes net little false k
      into (λ (present : Bool). if present then pure tt else fail (exit code)) rejects
        fail-Rejects net k code)

  -- `next n` is the method from the loop on.
  pub read_list-Rejects :
      {A B : Type 0} (Fits : A → Type 0) (print : A → List ℕ) (Item : List ℕ → ℕ → Type 0)
      (read : Action S A) (next : ℕ → Action S B) (count_code : ℕ) (k : Caches)
      → ((a : A) → Fits a → Takes net read k (print a) a k)
      → ((ys : List ℕ) (code : ℕ) → Item ys code → Rejects net read k ys code)
      → ((n : ℕ) (xs : List ℕ) (code : ℕ)
          → Rejects net (repeat n read) k xs code
          → Rejects net (next n) k xs code)
      → (xs : List ℕ) (code : ℕ) → MalformedList Fits print count_code Item xs code
      → Rejects net (read_count p count_code >>= next) k xs code
  read_list-Rejects Fits print Item read next count_code k one bad loop _ _ (negative_count n h) =
      stops next (read_count-Rejects count_code n k h)
  read_list-Rejects Fits print Item read next count_code k one bad loop _ _
        (bad_item n xs ys code h l good item) =
      read_count-Takes net little count_code n k h
      into next rejects
        loop n (concat (map print xs) ++ ys) code
          (repeat-Rejects Fits print read k ys code one (bad ys code item) n xs l good)

  read_string-Rejects :
      (k : Caches) → Rejects net (read_string p) k (print_int (negsuc 0) ++ []) 10014
  unfolding read_string
  read_string-Rejects k =
      read_int-Takes net little (negsuc 0) k (omega arith) into _ rejects fail-Rejects net k 10014

  read_player-Rejects :
      (k : Caches) (xs : List ℕ) (code : ℕ)
      → MalformedPlayer xs code
      → Rejects net (read_player p) k xs code
  unfolding read_player
  read_player-Rejects k _ _ absent_player = stops _ (expect_present-Rejects 10004 k)
  read_player-Rejects k _ _ (null_name id h) =
      expect_present-Takes net little 10004 k
      into _ rejects read_long-Takes net little id k h
      into _ rejects stops _ (read_string-Rejects k)

  pub read_trooper-Rejects :
      (k : Caches) (xs : List ℕ) (code : ℕ)
      → AbsentItem 10006 xs code
      → Rejects net (read_trooper p) k xs code
  unfolding read_trooper
  read_trooper-Rejects k _ _ absent = stops _ (expect_present-Rejects 10006 k)

  read_bonus-Rejects :
      (k : Caches) (xs : List ℕ) (code : ℕ)
      → AbsentItem 10010 xs code
      → Rejects net (read_bonus p) k xs code
  unfolding read_bonus
  read_bonus-Rejects k _ _ absent = stops _ (expect_present-Rejects 10010 k)

  pub read_players-Rejects :
      (k : Caches) (xs : List ℕ) (code : ℕ)
      → MalformedList PlayerFits print_player 10003 MalformedPlayer xs code
      → Rejects net (read_players p) k xs code
  unfolding read_players
  read_players-Rejects k =
      read_list-Rejects PlayerFits print_player MalformedPlayer (read_player p) _ 10003 k
        (λ a f. read_player-Takes net little a k f) (read_player-Rejects k) (λ n xs code r. r)

  pub read_troopers-Rejects :
      (k : Caches) (xs : List ℕ) (code : ℕ)
      → MalformedList TrooperFits print_trooper 10005 (AbsentItem 10006) xs code
      → Rejects net (read_troopers p) k xs code
  unfolding read_troopers
  read_troopers-Rejects k =
      read_list-Rejects TrooperFits print_trooper (AbsentItem 10006) (read_trooper p) _ 10005 k
        (λ a f. read_trooper-Takes net little a k f) (read_trooper-Rejects k) (λ n xs code r. r)

  pub read_bonuses-Rejects :
      (k : Caches) (xs : List ℕ) (code : ℕ)
      → MalformedList BonusFits print_bonus 10009 (AbsentItem 10010) xs code
      → Rejects net (read_bonuses p) k xs code
  unfolding read_bonuses
  read_bonuses-Rejects k =
      read_list-Rejects BonusFits print_bonus (AbsentItem 10010) (read_bonus p) _ 10009 k
        (λ a f. read_bonus-Takes net little a k f) (read_bonus-Rejects k) (λ n xs code r. r)
