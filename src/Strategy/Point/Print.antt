-- ===== src/Strategy/Point/Print.antt =====
-- The operator << of struct Point.
use russian_ai_cup.Base.{ℕ, ◌≡◌, ◌≢◌, refl, ℤ, true, List, [], ◌∷◌, ◌++◌, All, arith}
use russian_ai_cup.Strategy.Point.{Point, eq_point, print_point}

-- What is documented of the output of an int: its digits, behind a sign, with no blank, and different
-- numbers are different texts.
pub record IsNumeral (print : ℤ → List ℕ) : Type 0 where
  pub no_blank : (n : ℤ) → All (λ c. c ≢ b' ') (print n)
  pub apart : (m n : ℤ) → print m ≡ print n → m ≡ n

-- Where two texts meet behind the first blank.
split_at_blank :
    (xs ys xs' ys' : List ℕ)
    → All (λ c. c ≢ b' ') xs
    → All (λ c. c ≢ b' ') xs'
    → xs ++ (b' ' ∷ ys) ≡ xs' ++ (b' ' ∷ ys')
    → (xs ≡ xs') × (ys ≡ ys')
split_at_blank [] ys [] ys' h h' e = (refl, cc)
split_at_blank [] ys (x' ∷ xs') ys' h h' e = absurd (h'.0 (cc))
split_at_blank (x ∷ xs) ys [] ys' h h' e = absurd (h.0 (cc))
split_at_blank (x ∷ xs) ys (x' ∷ xs') ys' h h' e =
    let (same, rest) = split_at_blank xs ys xs' ys' h.1 h'.1 (cc) in (cc, rest)

-- If the output of an int is a numeral, with no blank and another for every number, then points that
-- operator<< prints alike are equal for the operator ==.
pub print_point-injective :
    (print : ℤ → List ℕ) (a b : Point)
    → IsNumeral print
    → print_point print a ≡ print_point print b
    → eq_point a b ≡ true
print_point-injective print a b numeral e =
    let (x, y) =
      split_at_blank (print a.x) (print a.y) (print b.x) (print b.y) (numeral.no_blank a.x)
        (numeral.no_blank b.x) e in
    let left : a.x ≡ b.x = numeral.apart a.x b.x x in
    let right : a.y ≡ b.y = numeral.apart a.y b.y y in rw (left, right) (ground arith)
