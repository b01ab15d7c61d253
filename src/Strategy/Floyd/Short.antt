-- ===== src/Strategy/Floyd/Short.antt =====
-- A walk without loops: no distance is longer than the list of free cells.
use russian_ai_cup.Base.{
  ℕ, zero, suc, ◌≤◌, ◌≡◌, ◌≢◌, refl, ◌⊎◌, inl, inr, ℤ, List, [], ◌∷◌, Member, here, there,
  Member-cons_cases, subst, sym, length, arith,
}
use russian_ai_cup.Model.World.{Cells}
use russian_ai_cup.Strategy.Point.{Point}
use russian_ai_cup.Strategy.Floyd.{inf, free_points, floyd}
use russian_ai_cup.Strategy.Floyd.Walks.{Walk, Via, Via-cases, Walk-Via}
use russian_ai_cup.Strategy.Floyd.Shortest.{inside, floyd_shortest}

-- A list without one place where `c` is.
record Rest (c : Point) (S : List Point) : Type 0 where
  others : List Point
  size : length S ≡ suc (length others)
  cases : (d : Point) → Member d S → (d ≡ c) ⊎ Member d others

Member-Rest : (c : Point) (S : List Point) → Member c S → Rest c S
Member-Rest c [] m = elim m [ ]
Member-Rest c (_ ∷ S) here = record { others = S; size = refl; cases = λ d m. Member-cons_cases m }
Member-Rest c (x ∷ S) (there m) =
    let r = Member-Rest c S m in
    record {
      others = x ∷ r.others;
      size = omega (arith, r.size);
      cases = λ d n. elim (Member-cons_cases n) [
        | inl e ↦ inr (subst (λ y. Member y (x ∷ r.others)) (sym e) here)
        | inr n ↦ elim (r.cases d n) [ inl e ↦ inl e | inr m ↦ inr (there m) ]
      ];
    }

back :
    (c : Point) (S : List Point) (r : Rest c S) (d : Point) → Member d S → Member d (c ∷ r.others)
back c S r d m = elim (r.cases d m) [
  | inl e ↦ subst (λ y. Member y (c ∷ r.others)) (sym e) here
  | inr m ↦ there m
]

module _ {E : Point → Point → Type 0} where
  Via-mono :
      {S T : List Point} {a b : Point} {n : ℕ}
      → ((d : Point) → Member d S → Member d T)
      → Via E S a b n
      → Via E T a b n
  Via-mono h (Via.last e k) = Via.last e k
  Via-mono h (Via.step e c v k) = Via.step e (h _ c) (Via-mono h v) k

  -- From the last visit of `c` on.
  behind :
      (c : Point) (S : List Point) (r : Rest c S) {b : Point} {n : ℕ}
      → Via E S c b n
      → (m : ℕ) × (m ≤ n) × Via E r.others c b m
  behind c S r {n = n} v = elim (Via-cases (Via-mono (back c S r) v)) [
    | inl w ↦ (n, omega arith, w)
    | inr t ↦ (t.second, omega (arith, t.total), t.onward)
  ]

  -- A walk without loops: it is not longer, and has no more inner points than the list.
  shorten :
      (l : ℕ) (S : List Point) {a b : Point} {n : ℕ}
      → length S ≤ l
      → Via E S a b n
      → (m : ℕ) × (m ≤ suc l) × (m ≤ n) × Walk E a b m
  shorten l S h (Via.last e k) = (1, omega arith, omega arith, Walk.last e refl)
  shorten zero S h (Via.step {c = c} e i v k) = absurd (omega (arith, (Member-Rest c S i).size))
  shorten (suc l) S h (Via.step {c = c} {m = n} e i v k) =
      let r = Member-Rest c S i in
      let (n', le, w) = behind c S r v in
      let (m, small, short, walk) = shorten l r.others (omega (arith, r.size)) w in
      (suc m, omega arith, omega arith, Walk.step e walk refl)

module _ (cells : Cells) (size_x size_y : ℤ) where
  -- A distance that is not `inf` is at most one more than the number of free cells.
  pub floyd-le :
      (a b : Point)
      → floyd cells size_x size_y a b ≢ inf
      → floyd cells size_x size_y a b ≤ suc (length (free_points cells size_x size_y))
  floyd-le a b far =
      let (walks, below, shortest) = floyd_shortest cells size_x size_y in
      let over = Walk-Via (λ c d e. (inside cells size_x size_y c d e).1) (walks a b far) in
      let (m, small, short, walk) =
        shorten (length (free_points cells size_x size_y)) (free_points cells size_x size_y)
          (omega arith) over in
      let least = shortest a b m walk (omega (arith, below a b, far)) in omega arith
