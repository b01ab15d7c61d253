-- ===== src/Strategy/Floyd.antt =====
-- SlavaStrategy::floyd of MyStrategy.cpp: the distances between the free cells of the first world.
-- `floyd_dist` is a function of two points; it is only read at points of the board, for which the
-- four-dimensional vector has an entry. Distances are not negative: a native number.
pub mod Walks
pub mod Relax
pub mod Rounds
pub mod Edges
pub mod Board
pub mod Shortest
pub mod Short
use mathlib.Core.List.{foldl}
use russian_ai_cup.Base.{
  ℕ, zero, suc, ◌+◌, ◌^◌, ℤ, pos, negsuc, pos_part, Bool, true, false, Option, none, some, List, [],
  ◌∷◌, ◌++◌, get_elem?, min, ◌==◌, if◌then◌else◌,
}
use russian_ai_cup.Model.World.{Cells, CellType, unknown_cell, free}
use russian_ai_cup.Strategy.Point.{Point, eq_point, neighs}

-- const int inf = 1e9
abbrev pub inf : ℕ
inf = 1_000_000_000

abbrev pub Distances : Type 0
Distances = Point → Point → ℕ

-- `cells[x][y]`. A read out of range is undefined in C++; here it is `unknown_cell`. The points
-- come from the loops over the board and from `neighs`, so it is met only where the cells are fewer
-- than the sizes say, which `Search.Whole` excludes.
abbrev pub cell_in : List CellType → ℤ → CellType
cell_in column (pos y) = elim (get_elem? column y) [ some c ↦ c | none ↦ unknown_cell ]
cell_in column (negsuc _) = unknown_cell

abbrev pub column_at : Cells → ℤ → List CellType
column_at cells (pos x) = elim (get_elem? cells x) [ some column ↦ column | none ↦ [] ]
column_at cells (negsuc _) = []

unfoldable pub cell_at : Cells → Point → CellType
cell_at cells p = cell_in (column_at cells p.x) p.y

abbrev is_free_type : CellType → Bool
is_free_type free = true
is_free_type _ = false

-- `cells[x][y] == FREE`
unfoldable pub is_free : Cells → Point → Bool
unfolding cell_at
is_free cells p = is_free_type (cell_at cells p)

-- The points that `for (y = from; ...; y += 1)` visits in `n` rounds, if they are free.
unfoldable pub free_in_column : Cells → ℤ → ℕ → ℕ → List Point
free_in_column cells x zero y = []
free_in_column cells x (suc n) y =
    let rest = free_in_column cells x n (y + 1) in
    if is_free cells (record { x = x; y = pos y }) then record { x = x; y = pos y } ∷ rest else rest

unfoldable pub free_from : Cells → ℕ → ℕ → ℕ → List Point
unfolding free_in_column
free_from cells height zero x = []
free_from cells height (suc n) x =
    free_in_column cells (pos x) height 0 ++ free_from cells height n (x + 1)

unfoldable pub free_points : Cells → ℤ → ℤ → List Point
unfolding free_from
free_points cells size_x size_y = free_from cells (pos_part size_y) (pos_part size_x) 0

-- `at2(floyd_dist, p, q) = v`
unfoldable pub put : Distances → Point → Point → ℕ → Distances
put d p q v a b = if eq_point a p then (if eq_point b q then v else d a b) else d a b

unfoldable pub put_edge : Cells → Point → Distances → Point → Distances
put_edge cells p d n = if is_free cells n then put d p n 1 else d

unfoldable pub put_edges : Cells → ℤ → ℤ → Distances → Point → Distances
unfolding put_edge
put_edges cells size_x size_y d p = foldl (put_edge cells p) d (neighs size_x size_y p)

-- The body of the innermost loop: at2(i, j) = min(at2(i, j), at2(i, k) + at2(k, j)).
unfoldable pub relax : Point → Point → Distances → Point → Distances
unfolding put
relax k i d j = if d k j == inf then d else put d i j (min (d i j) (d i k + d k j))

unfoldable pub relax_row : List Point → Point → Distances → Point → Distances
unfolding relax
relax_row points k d i = if d i k == inf then d else foldl (relax k i) d points

unfoldable pub relax_all : List Point → Distances → Point → Distances
unfolding relax_row
relax_all points d k = foldl (relax_row points k) d points

unfoldable pub floyd : Cells → ℤ → ℤ → Distances
unfolding free_points put_edges relax_all
floyd cells size_x size_y =
    let points = free_points cells size_x size_y in
    let edges = foldl (put_edges cells size_x size_y) (λ _ _. inf) points in
    foldl (relax_all points) edges points
