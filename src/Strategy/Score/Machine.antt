-- ===== src/Strategy/Score/Machine.antt =====
-- The score of SlavaStrategy::maximize_score in the arithmetic of the machine, statement by
-- statement: an int that overflows is undefined (`none`); the line that divides by
-- `teammates.size()` is in the unsigned numbers of 64 bits, and its result goes back to an int.
use russian_ai_cup.Base.{
  ℕ, zero, suc, ◌+◌, ◌-◌, ◌/◌, ◌%◌, ◌^◌, ℤ, pos, ◌+ℤ◌, ◌-ℤ◌, ◌*ℤ◌, ◌==ℤ◌, leb_ℤ, ltb, leb, pos_part,
  neg_part, to_signed, of_signed, not, ◌&&◌, Option, none, some, List, [], ◌∷◌, length,
  if◌then◌else◌,
}
use russian_ai_cup.Model.Trooper.{Trooper}
use russian_ai_cup.Model.Trooper.Methods.{get_type}
use russian_ai_cup.Strategy.Point.{point_of}
use russian_ai_cup.Strategy.Turn.{Turn, State, min_distance}
use russian_ai_cup.Strategy.Score.{is_scout, is_close_to_commander, shooting_enemies, int_of}

infixl 1 ◌>>=◌
unfoldable pub ◌>>=◌ : {A B : Type 0} → Option A → (A → Option B) → Option B
none >>= f = none
some a >>= f = f a

-- The result of an int operation: from -2^31 to 2^31 - 1.
unfoldable pub checked : ℤ → Option ℤ
checked a = if ltb (pos_part a) (2 ^ 31) && leb (neg_part a) (2 ^ 31) then some a else none

-- `score += k * x` and `score -= k * x`.
unfoldable pub add_product : ℕ → ℤ → ℤ → Option ℤ
unfolding checked ◌>>=◌
add_product k x score = do product ← checked (pos k *ℤ x); checked (score +ℤ product)

unfoldable pub sub_product : ℕ → ℤ → ℤ → Option ℤ
unfolding checked ◌>>=◌
sub_product k x score = do product ← checked (pos k *ℤ x); checked (score -ℤ product)

-- int to size_t, and the low 32 bits of a size_t as an int.
abbrev pub to_size : ℤ → ℕ
to_size a = of_signed (2 ^ 64) a

abbrev pub to_int : ℕ → ℤ
to_int n = to_signed (2 ^ 32) (n % 2 ^ 32)

-- `score -= k * x / n`, for an n of type size_t; a division by zero is undefined.
unfoldable pub sub_share : ℕ → ℤ → ℕ → ℤ → Option ℤ
unfolding checked ◌>>=◌
sub_share k x zero score = none
sub_share k x (suc n) score = do
  product ← checked (pos k *ℤ x)
  some (to_int ((to_size score + 2 ^ 64 - to_size product / suc n) % 2 ^ 64))

-- The loop `mates_dist += min_distance(state.pos, mate)`.
unfoldable pub add_distances : Turn → State → List Trooper → ℤ → Option ℤ
unfolding checked ◌>>=◌
add_distances t s [] mates_dist = some mates_dist
add_distances t s (mate ∷ mates) mates_dist = do
  sum ← checked (mates_dist +ℤ pos (min_distance t.floyd_dist s.pos (point_of mate.unit)))
  add_distances t s mates sum

-- `if (state.mate_damage >= 0 && state.damage == 0) { ... }`
unfoldable pub sub_target : Turn → State → ℤ → Option ℤ
unfolding sub_product
sub_target t s score =
    if leb_ℤ (pos 0) s.mate_damage && s.damage ==ℤ pos 0
    then sub_product 55 (pos (min_distance t.floyd_dist s.pos t.target)) score
    else some score

-- `if (self.getType() != SCOUT) { ... }`
unfoldable pub add_commander : Turn → State → ℤ → Option ℤ
unfolding add_product is_close_to_commander
add_commander t s score =
    if not (is_scout (get_type t.self))
    then add_product 500 (int_of (is_close_to_commander t s t.teammates)) score
    else some score

-- From `int score = 0` to the line before the one that divides.
unfoldable pub score_before_mates : Turn → State → Option ℤ
unfolding add_product sub_product shooting_enemies ◌>>=◌
score_before_mates t s = do
  s1 ← sub_product 2000 s.mate_damage (pos 0)
  s2 ← add_product 300 s.damage s1
  s3 ← add_product 20000 s.kills s2
  s4 ← sub_product 10000 (pos (shooting_enemies t s t.enemies)) s3
  s5 ← add_product 400 (int_of s.has_medkit) s4
  s6 ← add_product 400 (int_of s.has_field_ration) s5
  add_product 400 (int_of s.has_grenade) s6

-- From that line on.
unfoldable pub score_from_mates : Turn → State → ℤ → ℤ → Option ℤ
unfolding sub_share sub_target add_commander ◌>>=◌
score_from_mates t s mates_dist score = do
  s8 ← sub_share 60 mates_dist (length t.teammates) score
  s9 ← sub_target t s s8
  add_commander t s s9

unfoldable pub machine_score : Turn → State → Option ℤ
unfolding add_distances score_before_mates score_from_mates ◌>>=◌
machine_score t s = do
  mates_dist ← add_distances t s t.teammates (pos 0)
  score ← score_before_mates t s
  score_from_mates t s mates_dist score
