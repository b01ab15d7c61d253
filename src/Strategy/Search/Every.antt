-- ===== src/Strategy/Search/Every.antt =====
-- A property of every candidate, through the lists that the blocks of maximize_score build.
use russian_ai_cup.Base.{
  ◌≡◌, refl, ℤ, pos, ◌-ℤ◌, ◌≤ℤ◌, leb_ℤ, Bool, true, false, not, List, [], ◌∷◌, ◌++◌, Member, here,
  there, if◌then◌else◌, arith,
}
use russian_ai_cup.Strategy.Expand.{Candidate, for_each, with_points}

abbrev pub Every : (Candidate → Type 0) → List Candidate → Type 0
Every P cs = (c : Candidate) → Member c cs → P c

affordable : (a b : ℤ) → leb_ℤ (pos 0) (a -ℤ b) ≡ true → b ≤ℤ a
unfolding ◌-ℤ◌
affordable a b h = ground arith

module _ (P : Candidate → Type 0) where
  Every-nil : Every P []
  Every-nil c m = elim m [ ]

  pub Every-one : (c : Candidate) → P c → Every P (c ∷ [])
  Every-one c h _ here = h
  Every-one c h _ (there m) = elim m [ ]

  pub Every-append : (cs ds : List Candidate) → Every P cs → Every P ds → Every P (cs ++ ds)
  Every-append [] ds h k c m = k c m
  Every-append (d ∷ cs) ds h k _ here = h d here
  Every-append (d ∷ cs) ds h k c (there m) = Every-append cs ds (λ c m. h c (there m)) k c m

  pub if-Every :
      (b : Bool) (cs : List Candidate) → (b ≡ true → Every P cs) → Every P (if b then cs else [])
  if-Every true cs h = h refl
  if-Every false cs h = Every-nil

  pub if_not-Every :
      (b : Bool) (cs : List Candidate)
      → (b ≡ false → Every P cs)
      → Every P (if not b then cs else [])
  if_not-Every true cs h = Every-nil
  if_not-Every false cs h = h refl

  pub for_each-Every :
      {A : Type 0} (xs : List A) (body : A → List Candidate)
      → ((x : A) → Member x xs → Every P (body x))
      → Every P (for_each xs body)
  unfolding for_each
  for_each-Every [] body h = Every-nil
  for_each-Every (x ∷ xs) body h =
      Every-append (body x) (for_each xs body) (h x here)
        (for_each-Every xs body (λ y m. h y (there m)))

  pub with_points-Every :
      (points cost : ℤ) (body : ℤ → List Candidate)
      → (cost ≤ℤ points → Every P (body (points -ℤ cost)))
      → Every P (with_points points cost body)
  unfolding with_points
  with_points-Every points cost body h =
      if-Every (leb_ℤ (pos 0) (points -ℤ cost)) (body (points -ℤ cost))
        (λ e. h (affordable points cost e))

  pub with_points_all-Every :
      (points cost : ℤ) (body : ℤ → List Candidate)
      → ((points' : ℤ) → Every P (body points'))
      → Every P (with_points points cost body)
  with_points_all-Every points cost body h =
      with_points-Every points cost body (λ paid. h (points -ℤ cost))
