-- ===== src/Strategy/Point.antt =====
-- `struct Point` of MyStrategy.cpp. The globals `sizeX` and `sizeY` are arguments.
pub mod Neighs
pub mod Print
use russian_ai_cup.Base.{
  ℕ, ◌+◌, ℤ, pos, ◌+ℤ◌, ◌-ℤ◌, ◌==ℤ◌, ltb_ℤ, leb_ℤ, abs, Bool, not, ◌&&◌, ◌||◌, List, [], ◌∷◌, ◌++◌,
  ◌==◌, if◌then◌else◌,
}
use russian_ai_cup.Model.Double.{Double, Fpu}
use russian_ai_cup.Model.Units.{GameUnit, square_distance}

pub record Point : Type 0 where
  pub x : ℤ
  pub y : ℤ

-- Point(const Unit& u)
abbrev pub point_of : GameUnit → Point
point_of u = record { x = u.x; y = u.y }

unfoldable pub is_correct : ℤ → ℤ → Point → Bool
is_correct size_x size_y p =
    leb_ℤ (pos 0) p.x && ltb_ℤ p.x size_x && leb_ℤ (pos 0) p.y && ltb_ℤ p.y size_y

unfoldable pub has_neigh : ℤ → ℤ → Point → Point → Bool
has_neigh size_x size_y a p = is_correct size_x size_y p && abs (a.x -ℤ p.x) + abs (a.y -ℤ p.y) == 1

-- `if (test) { result.push_back(p); }`
unfoldable pub push_if : Bool → Point → List Point → List Point
push_if test p rest = if test then p ∷ rest else rest

unfoldable pub neighs : ℤ → ℤ → Point → List Point
neighs size_x size_y p =
    push_if (leb_ℤ (pos 0) (p.x -ℤ pos 1)) (record { x = p.x -ℤ pos 1; y = p.y })
      (push_if (leb_ℤ (pos 0) (p.y -ℤ pos 1)) (record { x = p.x; y = p.y -ℤ pos 1 })
        (push_if (ltb_ℤ (p.x +ℤ pos 1) size_x) (record { x = p.x +ℤ pos 1; y = p.y })
          (push_if (ltb_ℤ (p.y +ℤ pos 1) size_y) (record { x = p.x; y = p.y +ℤ pos 1 }) [])))

unfoldable pub distance_to : Fpu → Point → Point → Double
unfolding square_distance
distance_to fpu a p = fpu.sqrt (fpu.of_int (square_distance a.x a.y p.x p.y))

-- The operators ==, != and <.
abbrev pub eq_point : Point → Point → Bool
eq_point a b = a.x ==ℤ b.x && a.y ==ℤ b.y

abbrev pub ne_point : Point → Point → Bool
ne_point a b = not (eq_point a b)

unfoldable pub lt_point : Point → Point → Bool
lt_point a b = ltb_ℤ a.x b.x || a.x ==ℤ b.x && ltb_ℤ a.y b.y

-- operator<<, with the stream's output of an int.
abbrev pub print_point : (ℤ → List ℕ) → Point → List ℕ
print_point print p = print p.x ++ (b' ' ∷ print p.y)
