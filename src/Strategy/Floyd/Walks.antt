-- ===== src/Strategy/Floyd/Walks.antt =====
-- Walks in a graph on the points, and how the points that a walk passes through are split off.
use russian_ai_cup.Base.{
  ℕ, suc, ◌+◌, ◌≤◌, ◌≡◌, refl, ◌⊎◌, inl, inr, List, ◌∷◌, Member, here, there, arith,
}
use russian_ai_cup.Strategy.Point.{Point}

-- A walk of `n` steps, at least one.
pub data Walk (E : Point → Point → Type 0) : Point → Point → ℕ → Type 0 where
  last : {a b : Point} {n : ℕ} → E a b → n ≡ 1 → Walk E a b n
  step : {a b c : Point} {n m : ℕ} → E a c → Walk E c b m → n ≡ suc m → Walk E a b n

-- A walk whose inner points are all in `S`.
pub data Via (E : Point → Point → Type 0) (S : List Point) : Point → Point → ℕ → Type 0 where
  last : {a b : Point} {n : ℕ} → E a b → n ≡ 1 → Via E S a b n
  step : {a b c : Point} {n m : ℕ} → E a c → Member c S → Via E S c b m → n ≡ suc m → Via E S a b n

-- A walk that goes to `k` over `S`, and on from there over `S`.
pub record Through (E : Point → Point → Type 0) (S : List Point) (k a b : Point) (n : ℕ)
    : Type 0 where
  pub first : ℕ
  pub second : ℕ
  pub forth : Via E S a k first
  pub onward : Via E S k b second
  pub total : first + second ≤ n

module _ {E : Point → Point → Type 0} where
  pub Walk-append :
      {a b c : Point} {n m : ℕ} (l : ℕ) → Walk E a b n → Walk E b c m → l ≡ n + m → Walk E a c l
  Walk-append l (Walk.last e h) w k = Walk.step e w (omega arith)
  Walk-append {m = m} l (Walk.step {m = r} e v h) w k =
      Walk.step {m = r + m} e (Walk-append (r + m) v w refl) (omega arith)

  -- A walk over `k` and `S` avoids `k`, or goes through it once.
  pub Via-cases :
      {S : List Point} {k a b : Point} {n : ℕ}
      → Via E (k ∷ S) a b n
      → Via E S a b n ⊎ Through E S k a b n
  Via-cases (Via.last e h) = inl (Via.last e h)
  Via-cases (Via.step e here v h) = elim (Via-cases v) [
    | inl w ↦
        inr (record {
          first = 1;
          second = _;
          forth = Via.last e refl;
          onward = w;
          total = omega arith;
        })
    | inr t ↦ inr (record {
      first = 1;
      second = t.second;
      forth = Via.last e refl;
      onward = t.onward;
      total = omega (arith, t.total);
    })
  ]
  Via-cases (Via.step e (there c) v h) = elim (Via-cases v) [
    | inl w ↦ inl (Via.step e c w h)
    | inr t ↦ inr (record {
      first = suc t.first;
      second = t.second;
      forth = Via.step e c t.forth refl;
      onward = t.onward;
      total = omega (arith, t.total);
    })
  ]

  pub Via-Walk : {S : List Point} {a b : Point} {n : ℕ} → Via E S a b n → Walk E a b n
  Via-Walk (Via.last e h) = Walk.last e h
  Via-Walk (Via.step e c v h) = Walk.step e (Via-Walk v) h

  pub Walk-Via :
      {S : List Point} {a b : Point} {n : ℕ}
      → ((c d : Point) → E c d → Member d S)
      → Walk E a b n
      → Via E S a b n
  Walk-Via inner (Walk.last e h) = Via.last e h
  Walk-Via inner (Walk.step e w h) = Via.step e (inner _ _ e) (Walk-Via inner w) h

  pub Walk-reverse :
      ((a b : Point) → E a b → E b a) → {a b : Point} {n : ℕ} → Walk E a b n → Walk E b a n
  Walk-reverse back (Walk.last e h) = Walk.last (back _ _ e) h
  Walk-reverse back {n = n} (Walk.step {m = m} e w h) =
      Walk-append n (Walk-reverse back w) (Walk.last (back _ _ e) refl) (omega arith)

  pub Walk-pos : {a b : Point} {n : ℕ} → Walk E a b n → 1 ≤ n
  Walk-pos (Walk.last e h) = omega arith
  Walk-pos (Walk.step e w h) = omega arith
