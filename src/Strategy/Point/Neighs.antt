-- ===== src/Strategy/Point/Neighs.antt =====
-- `neighs` lists exactly the points that `has_neigh` accepts.
use russian_ai_cup.Base.{
  ℕ, ◌+◌, ◌≡◌, ◌≢◌, refl, ℤ, pos, ◌+ℤ◌, ◌-ℤ◌, ltb_ℤ, leb_ℤ, Bool, true, false, List, [], Member,
  here, there, ◌↔◌, ◌⊎◌, inl, inr, int_laws, arith, abs,
}
use russian_ai_cup.Strategy.Point.{
  Point, is_correct, has_neigh, push_if, neighs, eq_point, lt_point,
}

pub eq_point_iff : (a b : Point) → (eq_point a b ≡ true) ↔ (a ≡ b)
eq_point_iff a b = ground arith

-- `<` on points is irreflexive, and of two points that are not equal one is less.
pub lt_point_total : (a b : Point) → (lt_point a b ≡ true) ⊎ (a ≡ b) ⊎ (lt_point b a ≡ true)
unfolding lt_point
lt_point_total a b = ground arith

Member-push_if :
    (t : Bool) (q p : Point) (rest : List Point)
    → Member q (push_if t p rest)
    → ((t ≡ true) × (q ≡ p)) ⊎ Member q rest
unfolding push_if
Member-push_if true q p rest here = inl (refl, refl)
Member-push_if true q p rest (there m) = inr m
Member-push_if false q p rest m = inr m

no-Member : {q : Point} → Member q [] → ⊥
no-Member m = elim m [ ]

push_if-here :
    (t : Bool) {q : Point} (p : Point) (rest : List Point)
    → t ≡ true
    → q ≡ p
    → Member q (push_if t p rest)
unfolding push_if
push_if-here true {q} p rest h e = rw e here
push_if-here false p rest h e = absurd (cc)

push_if-there :
    (t : Bool) {q : Point} (p : Point) (rest : List Point)
    → Member q rest
    → Member q (push_if t p rest)
unfolding push_if
push_if-there true p rest m = there m
push_if-there false p rest m = m

module _ (size_x size_y : ℤ) (p q : Point) where
  left_of :
      q ≡ record { x = p.x -ℤ pos 1; y = p.y }
      → leb_ℤ (pos 0) (p.x -ℤ pos 1) ≡ true
      → is_correct size_x size_y p ≡ true
      → has_neigh size_x size_y p q ≡ true
  unfolding has_neigh is_correct ◌-ℤ◌
  left_of e t h = ground arith

  above :
      q ≡ record { x = p.x; y = p.y -ℤ pos 1 }
      → leb_ℤ (pos 0) (p.y -ℤ pos 1) ≡ true
      → is_correct size_x size_y p ≡ true
      → has_neigh size_x size_y p q ≡ true
  unfolding has_neigh is_correct ◌-ℤ◌
  above e t h = ground arith

  right_of :
      q ≡ record { x = p.x +ℤ pos 1; y = p.y }
      → ltb_ℤ (p.x +ℤ pos 1) size_x ≡ true
      → is_correct size_x size_y p ≡ true
      → has_neigh size_x size_y p q ≡ true
  unfolding has_neigh is_correct ◌-ℤ◌ ◌+ℤ◌
  right_of e t h = ground arith

  below :
      q ≡ record { x = p.x; y = p.y +ℤ pos 1 }
      → ltb_ℤ (p.y +ℤ pos 1) size_y ≡ true
      → is_correct size_x size_y p ≡ true
      → has_neigh size_x size_y p q ≡ true
  unfolding has_neigh is_correct ◌-ℤ◌ ◌+ℤ◌
  below e t h = ground arith

same_place : (a b : ℤ) → abs (a -ℤ b) ≡ 0 → b ≡ a
same_place a b h = omega (int_laws, h)

next_place : (a b : ℤ) → abs (a -ℤ b) ≡ 1 → (b ≡ a -ℤ pos 1) ⊎ (b ≡ a +ℤ pos 1)
unfolding ◌-ℤ◌ ◌+ℤ◌
next_place a b h = ground arith

one_of : (m n : ℕ) → m + n ≡ 1 → ((m ≡ 1) × (n ≡ 0)) ⊎ ((m ≡ 0) × (n ≡ 1))
one_of m n h = omega arith

has_neigh-parts :
    (size_x size_y : ℤ) (p q : Point)
    → has_neigh size_x size_y p q ≡ true
    → (is_correct size_x size_y q ≡ true) × (abs (p.x -ℤ q.x) + abs (p.y -ℤ q.y) ≡ 1)
unfolding has_neigh
has_neigh-parts size_x size_y p q h = ground arith

pub has_neigh-IsCorrect :
    (size_x size_y : ℤ) (p q : Point)
    → has_neigh size_x size_y p q ≡ true
    → is_correct size_x size_y q ≡ true
has_neigh-IsCorrect size_x size_y p q h = (has_neigh-parts size_x size_y p q h).0

module _ (size_x size_y : ℤ) (p q : Point) (c : is_correct size_x size_y q ≡ true) where
  open p use {x as px, y as py}
  open q use {x as qx, y as qy}

  push_left : qx ≡ px -ℤ pos 1 → leb_ℤ (pos 0) (px -ℤ pos 1) ≡ true
  unfolding is_correct
  push_left e = ground arith

  push_above : qy ≡ py -ℤ pos 1 → leb_ℤ (pos 0) (py -ℤ pos 1) ≡ true
  unfolding is_correct
  push_above e = ground arith

  push_right : qx ≡ px +ℤ pos 1 → ltb_ℤ (px +ℤ pos 1) size_x ≡ true
  unfolding is_correct
  push_right e = ground arith

  push_below : qy ≡ py +ℤ pos 1 → ltb_ℤ (py +ℤ pos 1) size_y ≡ true
  unfolding is_correct
  push_below e = ground arith

module _ (size_x size_y : ℤ) (p q : Point) where
  to_neighs :
      is_correct size_x size_y q ≡ true
      → ((abs (p.x -ℤ q.x) ≡ 1) × (abs (p.y -ℤ q.y) ≡ 0))
        ⊎ ((abs (p.x -ℤ q.x) ≡ 0) × (abs (p.y -ℤ q.y) ≡ 1))
      → Member q (neighs size_x size_y p)
  unfolding neighs
  to_neighs c (inl (h, k)) =
      let same : q.y ≡ p.y = same_place p.y q.y k in
      elim (next_place p.x q.x h) [
        | inl e ↦
            push_if-here _ _ _ (push_left size_x size_y p q c e)
              (λ i. record { x = e i; y = same i })
        | inr e ↦ push_if-there _ _ _ (
            push_if-there _ _ _ (
              push_if-here _ _ _ (push_right size_x size_y p q c e)
                (λ i. record { x = e i; y = same i })))
      ]
  to_neighs c (inr (h, k)) =
      let same : q.x ≡ p.x = same_place p.x q.x h in
      elim (next_place p.y q.y k) [
        | inl e ↦ push_if-there _ _ _ (
            push_if-here _ _ _ (push_above size_x size_y p q c e)
              (λ i. record { x = same i; y = e i }))
        | inr e ↦ push_if-there _ _ _ (
            push_if-there _ _ _ (
              push_if-there _ _ _ (
                push_if-here _ _ _ (push_below size_x size_y p q c e)
                  (λ i. record { x = same i; y = e i }))))
      ]

  of_neighs :
      is_correct size_x size_y p ≡ true
      → Member q (neighs size_x size_y p)
      → has_neigh size_x size_y p q ≡ true
  unfolding neighs
  of_neighs h m = elim (Member-push_if _ q _ _ m) [
    | inl (t, e) ↦ left_of size_x size_y p q e t h
    | inr m ↦ elim (Member-push_if _ q _ _ m) [
      | inl (t, e) ↦ above size_x size_y p q e t h
      | inr m ↦ elim (Member-push_if _ q _ _ m) [
        | inl (t, e) ↦ right_of size_x size_y p q e t h
        | inr m ↦ elim (Member-push_if _ q _ [] m) [
          | inl (t, e) ↦ below size_x size_y p q e t h
          | inr m ↦ absurd (no-Member m)
        ]
      ]
    ]
  ]

  -- From a point of the board, `neighs` lists exactly the points that `has_neigh` accepts: the cells of
  -- the board that share a side with it.
  pub neighs_iff :
      is_correct size_x size_y p ≡ true
      → Member q (neighs size_x size_y p) ↔ (has_neigh size_x size_y p q ≡ true)
  neighs_iff h = (
    of_neighs h,
    λ n.
        let (c, one) = has_neigh-parts size_x size_y p q n in
        to_neighs c (one_of (abs (p.x -ℤ q.x)) (abs (p.y -ℤ q.y)) one),
  )

abs_comm : (a b : ℤ) → abs (a -ℤ b) ≡ abs (b -ℤ a)
unfolding ◌-ℤ◌
abs_comm a b = ground arith

-- For a point p of the board: if q is a neighbour of p, then p is a neighbour of q.
pub has_neigh_comm :
    (size_x size_y : ℤ) (p q : Point)
    → is_correct size_x size_y p ≡ true
    → has_neigh size_x size_y p q ≡ true
    → has_neigh size_x size_y q p ≡ true
has_neigh_comm size_x size_y p q c h =
    let (_, one) = has_neigh-parts size_x size_y p q h in
    unfold has_neigh in rw (c, abs_comm q.x p.x, abs_comm q.y p.y, one)

none_from : (a : ℤ) → abs (a -ℤ a) ≡ 0
unfolding ◌-ℤ◌
none_from a = ground arith

pub not-has_neigh_self : (size_x size_y : ℤ) (p : Point) → has_neigh size_x size_y p p ≢ true
not-has_neigh_self size_x size_y p h =
    let (_, one) = has_neigh-parts size_x size_y p p h in
    omega (arith, none_from p.x, none_from p.y)
