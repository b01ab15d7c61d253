-- ===== src/Client/Wire/Units.antt =====
-- Troopers, bonuses and players on the wire, and the readers that meet them.
use russian_ai_cup.Base.{
  ℕ, ◌≡◌, refl, pos, negsuc, Bool, true, List, [], ◌∷◌, ◌++◌, append-nil, concat, length, All,
  if◌then◌else◌,
}
use mathlib.Core.List.{map}
use russian_ai_cup.Model.Units.{Player, Bonus, bonus_type_code, bonus_type_of}
use russian_ai_cup.Model.Trooper.{
  Trooper, trooper_type_code, trooper_type_of, trooper_stance_code, trooper_stance_of,
}
use russian_ai_cup.Client.Monad.{Platform, Caches, Action, pure, fail, exit}
use russian_ai_cup.Client.Units.{
  repeat, read_count, expect_present, read_player, read_trooper, read_bonus,
}
use russian_ai_cup.Client.Stream.{IsStream}
use russian_ai_cup.Client.Takes.{Takes, Takes-eq, Takes-map, pure-Takes, ◌into◌then◌}
use russian_ai_cup.Client.Wire.Scalars.{
  IsInt, IsLong, IsDouble, IsEnum, print_enum, print_boolean, print_int, print_long, print_double,
  print_string, read_enum-Takes, read_boolean-Takes, read_int-Takes, read_long-Takes,
  read_double-Takes, read_string-Takes,
}

-- The values of a Trooper that its wire form can carry.
pub record TrooperFits (t : Trooper) : Type 0 where
  pub id : IsLong t.id
  pub x : IsInt t.x
  pub y : IsInt t.y
  pub player_id : IsLong t.player_id
  pub teammate_index : IsInt t.teammate_index
  pub type : IsEnum trooper_type_code trooper_type_of t.type
  pub stance : IsEnum trooper_stance_code trooper_stance_of t.stance
  pub hitpoints : IsInt t.hitpoints
  pub maximal_hitpoints : IsInt t.maximal_hitpoints
  pub action_points : IsInt t.action_points
  pub initial_action_points : IsInt t.initial_action_points
  pub vision_range : IsDouble t.vision_range
  pub shooting_range : IsDouble t.shooting_range
  pub shoot_cost : IsInt t.shoot_cost
  pub standing_damage : IsInt t.standing_damage
  pub kneeling_damage : IsInt t.kneeling_damage
  pub prone_damage : IsInt t.prone_damage
  pub damage : IsInt t.damage

unfoldable pub print_trooper : Trooper → List ℕ
print_trooper t = concat (
    print_boolean true
    ∷ print_long t.id
    ∷ print_int t.x
    ∷ print_int t.y
    ∷ print_long t.player_id
    ∷ print_int t.teammate_index
    ∷ print_boolean t.teammate
    ∷ print_enum (trooper_type_code t.type)
    ∷ print_enum (trooper_stance_code t.stance)
    ∷ print_int t.hitpoints
    ∷ print_int t.maximal_hitpoints
    ∷ print_int t.action_points
    ∷ print_int t.initial_action_points
    ∷ print_double t.vision_range
    ∷ print_double t.shooting_range
    ∷ print_int t.shoot_cost
    ∷ print_int t.standing_damage
    ∷ print_int t.kneeling_damage
    ∷ print_int t.prone_damage
    ∷ print_int t.damage
    ∷ print_boolean t.holding_grenade
    ∷ print_boolean t.holding_medikit
    ∷ print_boolean t.holding_field_ration
    ∷ [])

-- The values of a Bonus that its wire form can carry.
pub record BonusFits (b : Bonus) : Type 0 where
  pub id : IsLong b.id
  pub x : IsInt b.x
  pub y : IsInt b.y
  pub type : IsEnum bonus_type_code bonus_type_of b.type

unfoldable pub print_bonus : Bonus → List ℕ
print_bonus b = concat (
    print_boolean true
    ∷ print_long b.id
    ∷ print_int b.x
    ∷ print_int b.y
    ∷ print_enum (bonus_type_code b.type)
    ∷ [])

-- The values of a Player that its wire form can carry.
pub record PlayerFits (r : Player) : Type 0 where
  pub id : IsLong r.id
  pub name : IsInt (pos (length r.name))
  pub score : IsInt r.score
  pub approximate_x : IsInt r.approximate_x
  pub approximate_y : IsInt r.approximate_y

unfoldable pub print_player : Player → List ℕ
print_player r = concat (
    print_boolean true
    ∷ print_long r.id
    ∷ print_string r.name
    ∷ print_int r.score
    ∷ print_boolean r.strategy_crashed
    ∷ print_int r.approximate_x
    ∷ print_int r.approximate_y
    ∷ [])

-- A list of items behind its length.
abbrev pub print_list : {A : Type 0} → (A → List ℕ) → List A → List ℕ
print_list print xs = print_int (pos (length xs)) ++ concat (map print xs)

-- The lists that the wire can carry.
abbrev pub ListFits : {A : Type 0} → (A → Type 0) → List A → Type 0
ListFits Fits xs = IsInt (pos (length xs)) × All Fits xs

pub repeat-Takes :
    {S A : Type 0} {p : Platform S} (net : IsStream p) (Fits : A → Type 0) (print : A → List ℕ)
    (read : Action S A) (k : Caches)
    → ((a : A) → Fits a → Takes net read k (print a) a k)
    → (xs : List A) → All Fits xs
    → Takes net (repeat (length xs) read) k (concat (map print xs)) xs k
unfolding repeat
repeat-Takes net Fits print read k one [] h = pure-Takes net [] k
repeat-Takes net Fits print read k one (x ∷ xs) h =
    one x h.0 into _ then Takes-map (repeat-Takes net Fits print read k one xs h.1) _ refl

module _ {S : Type 0} {p : Platform S} (net : IsStream p) (little : p.little_endian ≡ true) where
  pub read_count-Takes :
      (code n : ℕ) (k : Caches)
      → IsInt (pos n)
      → Takes net (read_count p code) k (print_int (pos n)) n k
  unfolding read_count
  read_count-Takes code n k h = rw (append-nil (print_int (pos n))) at (
      read_int-Takes net little (pos n) k h
        into (λ c. elim c [ pos n ↦ pure n | negsuc _ ↦ fail (exit code) ])
      then pure-Takes net n k)

  pub expect_present-Takes :
      (code : ℕ) (k : Caches) → Takes net (expect_present p code) k (print_boolean true) tt k
  unfolding expect_present
  expect_present-Takes code k = rw (append-nil (print_boolean true)) at (
      read_boolean-Takes net little true k
        into (λ (present : Bool). if present then pure tt else fail (exit code))
      then pure-Takes net tt k)

  pub read_trooper-Takes :
      (t : Trooper) (k : Caches)
      → TrooperFits t
      → Takes net (read_trooper p) k (print_trooper t) t k
  unfolding read_trooper print_trooper
  read_trooper-Takes t k h =
      expect_present-Takes 10006 k into _
      then read_long-Takes net little t.id k h.id into _
      then read_int-Takes net little t.x k h.x into _
      then read_int-Takes net little t.y k h.y into _
      then read_long-Takes net little t.player_id k h.player_id into _
      then read_int-Takes net little t.teammate_index k h.teammate_index into _
      then read_boolean-Takes net little t.teammate k into _
      then read_enum-Takes net little (trooper_type_code t.type) k h.type.0 into _
      then read_enum-Takes net little (trooper_stance_code t.stance) k h.stance.0 into _
      then read_int-Takes net little t.hitpoints k h.hitpoints into _
      then read_int-Takes net little t.maximal_hitpoints k h.maximal_hitpoints into _
      then read_int-Takes net little t.action_points k h.action_points into _
      then read_int-Takes net little t.initial_action_points k h.initial_action_points into _
      then read_double-Takes net little t.vision_range k h.vision_range into _
      then read_double-Takes net little t.shooting_range k h.shooting_range into _
      then read_int-Takes net little t.shoot_cost k h.shoot_cost into _
      then read_int-Takes net little t.standing_damage k h.standing_damage into _
      then read_int-Takes net little t.kneeling_damage k h.kneeling_damage into _
      then read_int-Takes net little t.prone_damage k h.prone_damage into _
      then read_int-Takes net little t.damage k h.damage into _
      then read_boolean-Takes net little t.holding_grenade k into _
      then read_boolean-Takes net little t.holding_medikit k into _
      then (read_boolean-Takes net little t.holding_field_ration k into _
          then Takes-eq (λ i. record t { type = h.type.1 i; stance = h.stance.1 i })
              (pure-Takes net _ k))

  pub read_bonus-Takes :
      (b : Bonus) (k : Caches) → BonusFits b → Takes net (read_bonus p) k (print_bonus b) b k
  unfolding read_bonus print_bonus
  read_bonus-Takes b k h =
      expect_present-Takes 10010 k into _
      then read_long-Takes net little b.id k h.id into _
      then read_int-Takes net little b.x k h.x into _
      then read_int-Takes net little b.y k h.y into _
      then (read_enum-Takes net little (bonus_type_code b.type) k h.type.0 into _
          then Takes-eq (λ i. record b { type = h.type.1 i }) (pure-Takes net _ k))

  pub read_player-Takes :
      (r : Player) (k : Caches) → PlayerFits r → Takes net (read_player p) k (print_player r) r k
  unfolding read_player print_player
  read_player-Takes r k h =
      expect_present-Takes 10004 k into _
      then read_long-Takes net little r.id k h.id into _
      then read_string-Takes net little r.name k h.name into _
      then read_int-Takes net little r.score k h.score into _
      then read_boolean-Takes net little r.strategy_crashed k into _
      then read_int-Takes net little r.approximate_x k h.approximate_x into _
      then (read_int-Takes net little r.approximate_y k h.approximate_y into _
          then Takes-eq refl (pure-Takes net _ k))
