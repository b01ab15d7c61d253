-- ===== src/Strategy/Score/Small.antt =====
-- The machine's sums and products on small numbers: they are those of the integers, with a bound.
use russian_ai_cup.Base.{
  ℕ, zero, suc, ◌+◌, ◌-◌, ◌*◌, ◌/◌, ◌%◌, ◌^◌, ◌≤◌, ◌<◌, ◌≡◌, refl, ap, ℤ, pos, negsuc, ◌+ℤ◌, ◌-ℤ◌,
  ◌*ℤ◌, abs, pos-mul, abs-add, abs-sub, abs-mul, Bool, true, false, Option, some, if◌then◌else◌,
  arith,
}
use native.Mathlib.Nat.{div-le_self}
use russian_ai_cup.Strategy.Score.{int_of, score}
use russian_ai_cup.Strategy.Score.Machine.{
  ◌>>=◌, checked, add_product, sub_product, to_size, to_int, sub_share,
}

-- A value with a bound on its size.
pub record Small (bound : ℕ) (o : Option ℤ) (a : ℤ) : Type 0 where
  pub value : o ≡ some a
  pub size : abs a ≤ bound

pub bind-some :
    {A B : Type 0} {o : Option A} {a : A} (f : A → Option B) → o ≡ some a → (o >>= f) ≡ f a
unfolding ◌>>=◌
bind-some f e = ap (λ o. o >>= f) e

pub int_of-le_one : (b : Bool) → abs (int_of b) ≤ 1
int_of-le_one true = omega arith
int_of-le_one false = omega arith

pub checked-eq : (a : ℤ) → abs a < 2 ^ 31 → checked a ≡ some a
unfolding checked
checked-eq a h = ground arith

pub add_product-Small :
    (m n k : ℕ) (x score : ℤ)
    → abs score ≤ m
    → k * abs x ≤ n
    → m + n < 2 ^ 31
    → Small (m + n) (add_product k x score) (score +ℤ pos k *ℤ x)
unfolding add_product ◌>>=◌
add_product-Small m n k x score h l fits =
    let product = abs-mul k x in
    let sum = abs-add score (pos k *ℤ x) in
    record {
      value =
          rw
            (
              add_product,
              checked-eq (pos k *ℤ x) (omega arith),
              checked-eq (score +ℤ pos k *ℤ x) (omega arith),
            )
            refl;
      size = omega arith;
    }

pub sub_product-Small :
    (m n k : ℕ) (x score : ℤ)
    → abs score ≤ m
    → k * abs x ≤ n
    → m + n < 2 ^ 31
    → Small (m + n) (sub_product k x score) (score -ℤ pos k *ℤ x)
unfolding sub_product ◌>>=◌
sub_product-Small m n k x score h l fits =
    let product = abs-mul k x in
    let sum = abs-sub score (pos k *ℤ x) in
    record {
      value =
          rw
            (
              sub_product,
              checked-eq (pos k *ℤ x) (omega arith),
              checked-eq (score -ℤ pos k *ℤ x) (omega arith),
            )
            refl;
      size = omega arith;
    }

-- The difference of an int and a quotient, by way of 64 unsigned bits.
wrapped_sub :
    (score : ℤ) (q : ℕ)
    → abs score + q < 2 ^ 31
    → to_int ((to_size score + 2 ^ 64 - q) % 2 ^ 64) ≡ score -ℤ pos q
unfolding ◌-ℤ◌
wrapped_sub (pos k) q h = ground arith
wrapped_sub (negsuc k) q h = ground arith

pub sub_share-Small :
    (m n k x size : ℕ) (score : ℤ)
    → abs score ≤ m
    → k * x ≤ n
    → m + n < 2 ^ 31
    → 0 < size
    → Small (m + n) (sub_share k (pos x) size score) (score -ℤ pos (k * x / size))
unfolding sub_share ◌>>=◌
sub_share-Small m n k x zero score h l fits some_team = absurd (omega arith)
sub_share-Small m n k x (suc size) score h l fits some_team =
    let less : k * x / suc size ≤ k * x = div-le_self (k * x) (suc size) in
    let difference = abs-sub score (pos (k * x / suc size)) in
    record {
      value =
          rw
            (
              sub_share,
              pos-mul k x,
              checked-eq (pos (k * x)) (omega arith),
              wrapped_sub score (k * x / suc size) (omega arith),
            )
            refl;
      size = omega arith;
    }

pub if_Small :
    (m n : ℕ) {o : Option ℤ} {a : ℤ} (b : Bool) (score : ℤ)
    → Small (m + n) o a
    → abs score ≤ m
    → Small (m + n) (if b then o else some score) (if b then a else score)
if_Small m n true score small h = small
if_Small m n false score small h = record { value = refl; size = omega arith }
