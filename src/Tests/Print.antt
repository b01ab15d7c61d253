-- ===== src/Tests/Print.antt =====
-- The output of a point, with numbers as strokes behind their sign.
use russian_ai_cup.Base.{
  ℕ, zero, suc, ◌≡◌, ◌≢◌, refl, ap, ℤ, pos, negsuc, true, List, ◌∷◌, All, length, replicate, arith,
}
use russian_ai_cup.Strategy.Point.{Point, eq_point}
use russian_ai_cup.Strategy.Point.Print.{print_point-injective}

abbrev strokes : ℤ → List ℕ
strokes (pos n) = b'+' ∷ replicate n b'1'
strokes (negsuc n) = b'-' ∷ replicate n b'1'

no_blank_in : (n : ℕ) → All (λ (c : ℕ). c ≢ b' ') (replicate n b'1')
no_blank_in zero = tt
no_blank_in (suc n) = ((λ e. omega arith), no_blank_in n)

length-replicate : (n : ℕ) → length {A = ℕ} (replicate n b'1') ≡ n
length-replicate zero = refl
length-replicate (suc n) = ap suc (length-replicate n)

first_same : {a b : ℕ} {xs ys : List ℕ} → a ∷ xs ≡ b ∷ ys → a ≡ b
first_same e = cc

strokes_apart : (m n : ℤ) → strokes m ≡ strokes n → m ≡ n
strokes_apart (pos m) (pos n) e =
    ap pos (omega (arith, ap (length {0}) e, length-replicate m, length-replicate n))
strokes_apart (pos m) (negsuc n) e = absurd (omega (arith, first_same e))
strokes_apart (negsuc m) (pos n) e = absurd (omega (arith, first_same e))
strokes_apart (negsuc m) (negsuc n) e =
    ap negsuc (omega (arith, ap (length {0}) e, length-replicate m, length-replicate n))

no_blank_at : (n : ℤ) → All (λ (c : ℕ). c ≢ b' ') (strokes n)
no_blank_at (pos n) = ((λ e. omega arith), no_blank_in n)
no_blank_at (negsuc n) = ((λ e. omega arith), no_blank_in n)

abbrev here_and_there : Point
here_and_there = record { x = pos 3; y = negsuc 4 }

print_point-injective_example : eq_point here_and_there here_and_there ≡ true
print_point-injective_example =
    print_point-injective strokes here_and_there here_and_there
      (record { no_blank = no_blank_at; apart = strokes_apart }) refl
