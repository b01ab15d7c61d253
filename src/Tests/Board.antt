-- ===== src/Tests/Board.antt =====
-- A board of two free cells: the points, and the distances.
use russian_ai_cup.Base.{ℕ, ◌≡◌, ◌≢◌, ◌≤◌, ◌<◌, ◌↔◌, refl, ◌-ℤ◌, pos, Member, true, [], ◌∷◌}
use russian_ai_cup.Model.World.{Cells, free}
use russian_ai_cup.Strategy.Point.{Point, is_correct, has_neigh, neighs}
use russian_ai_cup.Strategy.Point.Neighs.{neighs_iff}
use russian_ai_cup.Strategy.Floyd.{inf, is_free, free_points, floyd}
use russian_ai_cup.Strategy.Floyd.Board.{free_points_iff}
use russian_ai_cup.Strategy.Floyd.Edges.{FreeStep}
use russian_ai_cup.Strategy.Floyd.Shortest.{FreeWalk, floyd_shortest, floyd_diagonal}

abbrev pub two_free : Cells
two_free = (free ∷ []) ∷ (free ∷ []) ∷ []

abbrev pub west_cell : Point
west_cell = record { x = pos 0; y = pos 0 }

abbrev pub east_cell : Point
east_cell = record { x = pos 1; y = pos 0 }

abbrev distances : Point → Point → ℕ
distances = floyd two_free (pos 2) (pos 1)

floyd_shortest_example :
    ((a b : Point) → distances a b ≢ inf → FreeWalk two_free (pos 2) (pos 1) a b (distances a b))
    × ((a b : Point) → distances a b ≤ inf)
    × ((a b : Point) (n : ℕ)
        → FreeWalk two_free (pos 2) (pos 1) a b n
        → n < inf
        → distances a b ≤ n)
floyd_shortest_example = floyd_shortest two_free (pos 2) (pos 1)

step_east : FreeStep two_free (pos 2) (pos 1) west_cell east_cell
unfolding is_correct has_neigh is_free ◌-ℤ◌
step_east = record { on_board = refl; from_free = refl; beside = refl; to_free = refl }

floyd_diagonal_example : distances west_cell west_cell ≡ 2
floyd_diagonal_example = floyd_diagonal two_free (pos 2) (pos 1) west_cell east_cell step_east

free_points_iff_example :
    Member east_cell (free_points two_free (pos 2) (pos 1))
    ↔ ((is_correct (pos 2) (pos 1) east_cell ≡ true) × (is_free two_free east_cell ≡ true))
free_points_iff_example = free_points_iff two_free east_cell (pos 2) (pos 1)

neighs_iff_example :
    Member east_cell (neighs (pos 2) (pos 1) west_cell)
    ↔ (has_neigh (pos 2) (pos 1) west_cell east_cell ≡ true)
neighs_iff_example = neighs_iff (pos 2) (pos 1) west_cell east_cell (step_east.on_board)
