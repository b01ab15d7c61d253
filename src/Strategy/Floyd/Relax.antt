-- ===== src/Strategy/Floyd/Relax.antt =====
-- The three nested loops of `floyd`, for any list of points: entries only fall, each finite entry is
-- the length of a walk, and after the round of `k` the entries allow for the walks through `k`.
use mathlib.Core.List.{foldl}
use russian_ai_cup.Base.{
  ℕ, ◌+◌, ◌≤◌, ◌≡◌, ◌≢◌, refl, ◌⊎◌, inl, inr, List, [], ◌∷◌, min, Bool-cases, ◌==◌, ==_iff, arith,
}
use russian_ai_cup.Strategy.Point.{Point, eq_point}
use russian_ai_cup.Strategy.Point.Neighs.{eq_point_iff}
use russian_ai_cup.Strategy.Floyd.{inf, Distances, put, relax, relax_row, relax_all}

-- `put` at its own place, and elsewhere.
pub put_cases :
    (d : Distances) (p q : Point) (v : ℕ) (a b : Point)
    → ((a ≡ p) × (b ≡ q) × (put d p q v a b ≡ v)) ⊎ (put d p q v a b ≡ d a b)
unfolding put
put_cases d p q v a b = elim (Bool-cases (eq_point a p)) [
  | inl s ↦ elim (Bool-cases (eq_point b q)) [
    | inl t ↦ inl ((eq_point_iff a p).0 s, (eq_point_iff b q).0 t, rw (put, s, t))
    | inr t ↦ inr (rw (put, s, t))
  ]
  | inr s ↦ inr (rw (put, s))
]

pub put_self : (d : Distances) (p q : Point) (v : ℕ) → put d p q v p q ≡ v
unfolding put
put_self d p q v = rw (put, (eq_point_iff p p).1 refl, (eq_point_iff q q).1 refl)

-- An invariant of the body is an invariant of the loop.
pub foldl-keeps {κ} :
    {A S : Type 0} (P : S → Type κ) (f : S → A → S)
    → ((s : S) (a : A) → P s → P (f s a))
    → (xs : List A) (s : S) → P s
    → P (foldl f s xs)
foldl-keeps P f keep [] s h = h
foldl-keeps P f keep (x ∷ xs) s h = foldl-keeps P f keep xs (f s x) (keep s x h)

-- No entry of `d'` is above that of `d`.
abbrev pub IsBelow : Distances → Distances → Type 0
IsBelow d' d = (a b : Point) → d' a b ≤ d a b

pub relax-IsBelow : (k i : Point) (d : Distances) (j : Point) → IsBelow (relax k i d j) d
unfolding relax
relax-IsBelow k i d j a b = elim (Bool-cases (d k j == inf)) [
  | inl skip ↦ rw (relax, skip) (omega arith)
  | inr go ↦
      rw (relax, go)
        (elim (put_cases d i j (min (d i j) (d i k + d k j)) a b) [
          | inl (p, q, e) ↦ rw (e, p, q) (omega arith)
          | inr e ↦ rw e (omega arith)
        ])
]

pub relax_hit :
    (k i : Point) (d : Distances) (j : Point) → d k j ≢ inf → relax k i d j i j ≤ d i k + d k j
unfolding relax
relax_hit k i d j h = elim (Bool-cases (d k j == inf)) [
  | inl skip ↦ absurd (h ((==_iff (d k j) inf).0 skip))
  | inr go ↦ rw (relax, go) (omega (arith, put_self d i j (min (d i j) (d i k + d k j))))
]

pub IsBelow-foldl :
    {A : Type 0} (f : Distances → A → Distances)
    → ((d : Distances) (a : A) → IsBelow (f d a) d)
    → (xs : List A) (d : Distances) → IsBelow (foldl f d xs) d
IsBelow-foldl f h xs d =
    foldl-keeps (λ d'. IsBelow d' d) f (λ s a b x y. omega (arith, h s a x y, b x y)) xs d
      (λ x y. omega arith)

pub relax_row-IsBelow :
    (points : List Point) (k : Point) (d : Distances) (i : Point)
    → IsBelow (relax_row points k d i) d
unfolding relax_row
relax_row-IsBelow points k d i a b = elim (Bool-cases (d i k == inf)) [
  | inl skip ↦ rw (relax_row, skip) (omega arith)
  | inr go ↦ rw (relax_row, go) (IsBelow-foldl (relax k i) (relax-IsBelow k i) points d a b)
]

pub relax_all-IsBelow :
    (points : List Point) (d : Distances) (k : Point) → IsBelow (relax_all points d k) d
unfolding relax_all
relax_all-IsBelow points d k =
    IsBelow-foldl (relax_row points k) (relax_row-IsBelow points k) points d
