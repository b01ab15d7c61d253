-- ===== src/Strategy/Floyd/Rounds.antt =====
-- What one round of `k` and all rounds of `floyd` achieve: entries allow for the walks through the
-- points treated so far, and a finite entry is the length of a walk.
use mathlib.Core.List.{foldl}
use russian_ai_cup.Base.{
  ℕ, ◌+◌, ◌≤◌, ◌<◌, ◌≡◌, ◌≢◌, refl, ◌∙◌, Bool, true, false, ◌⊎◌, inl, inr, List, [], ◌∷◌, Member,
  here, there, min, Bool-cases, ◌==◌, ==_iff, arith,
}
use russian_ai_cup.Strategy.Point.{Point}
use russian_ai_cup.Strategy.Floyd.{inf, Distances, put, relax, relax_row, relax_all}
use russian_ai_cup.Strategy.Floyd.Walks.{Walk, Walk-append, Walk-Via, Via, Via-cases}
use russian_ai_cup.Strategy.Floyd.Relax.{
  put_cases, foldl-keeps, relax-IsBelow, relax_hit, IsBelow-foldl, relax_row-IsBelow,
  relax_all-IsBelow,
}

absurd_test {ℓ} : {A : Type ℓ} (t : Bool) → t ≡ true → t ≡ false → A
absurd_test t h k = absurd (cc)

-- Where i reaches k and k reaches j within finite bounds, the round of k brings (i, j) below their sum.
row_hit :
    (k i j : Point) (m n : ℕ) (js : List Point) (d : Distances)
    → Member j js
    → d i k ≤ m
    → d k j ≤ n
    → m + n < inf
    → foldl (relax k i) d js i j ≤ m + n
row_hit k i j m n [] d mem hm hn fin = elim mem [ ]
row_hit k i j m n (_ ∷ js) d here hm hn fin = omega (
  arith,
  relax_hit k i d j (λ e. omega arith),
  IsBelow-foldl (relax k i) (relax-IsBelow k i) js (relax k i d j) i j,
)
row_hit k i j m n (x ∷ js) d (there mem) hm hn fin =
    row_hit k i j m n js (relax k i d x) mem (omega (arith, relax-IsBelow k i d x i k))
      (omega (arith, relax-IsBelow k i d x k j)) fin

relax_row_hit :
    (points : List Point) (k i j : Point) (m n : ℕ) (d : Distances)
    → Member j points
    → d i k ≤ m
    → d k j ≤ n
    → m + n < inf
    → relax_row points k d i i j ≤ m + n
unfolding relax_row
relax_row_hit points k i j m n d mem hm hn fin = elim (Bool-cases (d i k == inf)) [
  | inl skip ↦ absurd (omega (arith, (==_iff (d i k) inf).0 skip))
  | inr go ↦ rw (relax_row, go) (row_hit k i j m n points d mem hm hn fin)
]

rows_hit :
    (points is : List Point) (k i j : Point) (m n : ℕ) (d : Distances)
    → Member i is
    → Member j points
    → d i k ≤ m
    → d k j ≤ n
    → m + n < inf
    → foldl (relax_row points k) d is i j ≤ m + n
rows_hit points [] k i j m n d mi mem hm hn fin = elim mi [ ]
rows_hit points (_ ∷ is) k i j m n d here mem hm hn fin = omega (
  arith,
  relax_row_hit points k i j m n d mem hm hn fin,
  IsBelow-foldl (relax_row points k) (relax_row-IsBelow points k) is (relax_row points k d i) i j,
)
rows_hit points (x ∷ is) k i j m n d (there mi) mem hm hn fin =
    rows_hit points is k i j m n (relax_row points k d x) mi mem
      (omega (arith, relax_row-IsBelow points k d x i k))
      (omega (arith, relax_row-IsBelow points k d x k j)) fin

module _ (E : Point → Point → Type 0) (points : List Point)
    (inside : (a b : Point) → E a b → Member a points × Member b points) where
  -- Every walk over `S` that is shorter than `inf` bounds its entry.
  abbrev pub IsComplete : List Point → Distances → Type 0
  IsComplete S d = (a b : Point) (n : ℕ) → Via E S a b n → n < inf → d a b ≤ n

  -- Every finite entry is the length of a walk.
  abbrev pub IsSound : Distances → Type 0
  IsSound d = (a b : Point) → d a b ≢ inf → Walk E a b (d a b)

  Via-start : {S : List Point} {a b : Point} {n : ℕ} → Via E S a b n → Member a points
  Via-start (Via.last e h) = (inside _ _ e).0
  Via-start (Via.step e c v h) = (inside _ _ e).0

  Via-end : {S : List Point} {a b : Point} {n : ℕ} → Via E S a b n → Member b points
  Via-end (Via.last e h) = (inside _ _ e).1
  Via-end (Via.step e c v h) = Via-end v

  round-IsComplete :
      (S : List Point) (k : Point) (d : Distances)
      → IsComplete S d
      → IsComplete (k ∷ S) (relax_all points d k)
  unfolding relax_all
  round-IsComplete S k d h a b n v fin = elim (Via-cases v) [
    | inl w ↦ omega (arith, h a b n w fin, relax_all-IsBelow points d k a b)
    | inr t ↦ omega (
      arith,
      t.total,
      rows_hit points points k a b t.first t.second d (Via-start v) (Via-end v)
          (h a k t.first t.forth (omega (arith, t.total)))
          (h k b t.second t.onward (omega (arith, t.total))) (omega (arith, t.total)),
    )
  ]

  -- The points treated after the rounds of `ks`, the last one first.
  abbrev pub treated : List Point → List Point → List Point
  treated [] S = S
  treated (k ∷ ks) S = treated ks (k ∷ S)

  pub rounds-IsComplete :
      (ks S : List Point) (d : Distances)
      → IsComplete S d
      → IsComplete (treated ks S) (foldl (relax_all points) d ks)
  rounds-IsComplete [] S d h = h
  rounds-IsComplete (k ∷ ks) S d h =
      rounds-IsComplete ks (k ∷ S) (relax_all points d k) (round-IsComplete S k d h)

  pub Member-treated :
      {c : Point} (ks S : List Point) → Member c ks ⊎ Member c S → Member c (treated ks S)
  Member-treated [] S (inl m) = elim m [ ]
  Member-treated [] S (inr m) = m
  Member-treated (k ∷ ks) S (inl here) = Member-treated ks (k ∷ S) (inr here)
  Member-treated (k ∷ ks) S (inl (there m)) = Member-treated ks (k ∷ S) (inl m)
  Member-treated (k ∷ ks) S (inr m) = Member-treated ks (k ∷ S) (inr (there m))

  min_cases : (x y : ℕ) → (min x y ≡ x) ⊎ (min x y ≡ y)
  min_cases x y = omega arith

  -- The invariant inside the row of `i` in the round of `k`.
  record IsGood (d : Distances) : Type 0 where
    sound : IsSound d
    bounded : (a b : Point) → d a b ≤ inf

  relax-min :
      (k i j : Point) (d : Distances)
      → IsGood d
      → d i k < inf
      → d k j ≢ inf
      → min (d i j) (d i k + d k j) ≢ inf
      → Walk E i j (min (d i j) (d i k + d k j))
  relax-min k i j d g hik hkj h = elim (min_cases (d i j) (d i k + d k j)) [
    | inl e ↦ rw e (g.sound i j (λ e'. h (omega arith)))
    | inr e ↦ rw e (Walk-append _ (g.sound i k (λ e'. omega arith)) (g.sound k j hkj) refl)
  ]

  relax-IsSound :
      (k i : Point) (d : Distances) (j : Point) → IsGood d → d i k < inf → IsSound (relax k i d j)
  unfolding relax
  relax-IsSound k i d j g hik a b = elim (Bool-cases (d k j == inf)) [
    | inl skip ↦ rw (relax, skip) (g.sound a b)
    | inr go ↦ rw (relax, go) (placed go)
  ]
    where
      placed :
          (d k j == inf) ≡ false
          → put d i j (min (d i j) (d i k + d k j)) a b ≢ inf
          → Walk E a b (put d i j (min (d i j) (d i k + d k j)) a b)
      placed go h = elim (put_cases d i j (min (d i j) (d i k + d k j)) a b) [
        | inl (p, q, e) ↦
            rw (e, p, q)
              (relax-min k i j d g hik
                (λ w. absurd_test (d k j == inf) ((==_iff (d k j) inf).1 w) go) (λ w. h (e ∙ w)))
        | inr e ↦ rw e (g.sound a b (λ w. h (e ∙ w)))
      ]

  relax-IsGood :
      (k i : Point) (d : Distances) (j : Point)
      → IsGood d × (d i k < inf)
      → IsGood (relax k i d j) × (relax k i d j i k < inf)
  relax-IsGood k i d j (g, hik) = (
    record {
      sound = relax-IsSound k i d j g hik;
      bounded = λ a b. omega (arith, g.bounded a b, relax-IsBelow k i d j a b);
    },
    omega (arith, relax-IsBelow k i d j i k),
  )

  relax_row-IsGood :
      (k : Point) (d : Distances) (i : Point) → IsGood d → IsGood (relax_row points k d i)
  unfolding relax_row
  relax_row-IsGood k d i g = elim (Bool-cases (d i k == inf)) [
    | inl skip ↦ rw (relax_row, skip) g
    | inr go ↦
        let below : d i k < inf = omega (
          arith,
          g.bounded i k,
          λ (w : d i k ≡ inf). absurd_test {A = ⊥} (d i k == inf) ((==_iff (d i k) inf).1 w) go,
        ) in
        rw (relax_row, go)
          (foldl-keeps (λ d. IsGood d × (d i k < inf)) (relax k i) (relax-IsGood k i) points d
            (g, below)).0
  ]

  relax_all-IsGood : (d : Distances) (k : Point) → IsGood d → IsGood (relax_all points d k)
  unfolding relax_all
  relax_all-IsGood d k g =
      foldl-keeps IsGood (relax_row points k) (λ d i. relax_row-IsGood k d i) points d g

  -- All rounds, from a table of edges: an entry is the length of a walk unless it is `inf`, no entry is
  -- above `inf`, and no walk between two points is shorter than the entry.
  pub rounds_shortest :
      (d : Distances)
      → IsSound d
      → ((a b : Point) → d a b ≤ inf)
      → ((a b : Point) → E a b → d a b ≤ 1)
      → let d' = foldl (relax_all points) d points in
        IsSound d'
        × ((a b : Point) → d' a b ≤ inf)
        × ((a b : Point) (n : ℕ) → Walk E a b n → n < inf → d' a b ≤ n)
  rounds_shortest d sound bounded edges =
      let good : IsGood (foldl (relax_all points) d points) =
        foldl-keeps IsGood (relax_all points) (λ d k. relax_all-IsGood d k) points d
          (record { sound = sound; bounded = bounded }) in
      (
        good.sound,
        good.bounded,
        λ a b n w fin.
            rounds-IsComplete points [] d (start edges) a b n
              (Walk-Via (λ c e h. Member-treated points [] (inl (inside c e h).1)) w) fin,
      )
    where
      start : ((a b : Point) → E a b → d a b ≤ 1) → IsComplete [] d
      start edges a b n (Via.last e h) fin = omega (arith, edges a b e)
      start edges a b n (Via.step e c v h) fin = elim c [ ]
