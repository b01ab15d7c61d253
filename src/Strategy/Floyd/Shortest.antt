-- ===== src/Strategy/Floyd/Shortest.antt =====
-- `floyd` computes shortest distances.
use native.Mathlib.Decide.{ℕ_discrete}
use russian_ai_cup.Base.{ℕ, ◌≤◌, ◌<◌, ◌≡◌, ◌≢◌, refl, inl, inr, ℤ, Member, arith}
use russian_ai_cup.Model.World.{Cells}
use russian_ai_cup.Strategy.Point.{Point}
use russian_ai_cup.Strategy.Point.Neighs.{has_neigh-IsCorrect, has_neigh_comm, not-has_neigh_self}
use russian_ai_cup.Strategy.Floyd.{inf, free_points, floyd}
use russian_ai_cup.Strategy.Floyd.Walks.{Walk, Walk-reverse, Walk-pos}
use russian_ai_cup.Strategy.Floyd.Rounds.{rounds_shortest}
use russian_ai_cup.Strategy.Floyd.Board.{free_points_iff}
use russian_ai_cup.Strategy.Floyd.Edges.{FreeStep, edges, edges-IsEdges, edges_hit}

module _ (cells : Cells) (size_x size_y : ℤ) where
  abbrev pub FreeWalk : Point → Point → ℕ → Type 0
  FreeWalk = Walk (FreeStep cells size_x size_y)

  pub inside :
      (a b : Point)
      → FreeStep cells size_x size_y a b
      → Member a (free_points cells size_x size_y) × Member b (free_points cells size_x size_y)
  inside a b e = (
    (free_points_iff cells a size_x size_y).1 (e.on_board, e.from_free),
    (free_points_iff cells b size_x size_y).1
        (has_neigh-IsCorrect size_x size_y a b e.beside, e.to_free),
  )

  edges-IsSound :
      (a b : Point)
      → edges cells size_x size_y a b ≢ inf
      → FreeWalk a b (edges cells size_x size_y a b)
  edges-IsSound a b h = elim (edges-IsEdges cells size_x size_y a b) [
    | inl e ↦ absurd (h e)
    | inr (e, s) ↦ rw e (Walk.last s refl)
  ]

  edges-le-inf : (a b : Point) → edges cells size_x size_y a b ≤ inf
  edges-le-inf a b = elim (edges-IsEdges cells size_x size_y a b) [
    | inl e ↦ omega arith
    | inr (e, s) ↦ omega arith
  ]

  -- The table of `floyd` holds the lengths of the shortest walks of at least one step over the free
  -- cells: an entry that is not `inf` is the length of a walk, no entry is above `inf`, and a walk of
  -- fewer than `inf` steps is at least as long as its entry.
  pub floyd_shortest :
      ((a b : Point)
        → floyd cells size_x size_y a b ≢ inf
        → FreeWalk a b (floyd cells size_x size_y a b))
      × ((a b : Point) → floyd cells size_x size_y a b ≤ inf)
      × ((a b : Point) (n : ℕ) → FreeWalk a b n → n < inf → floyd cells size_x size_y a b ≤ n)
  unfolding floyd
  floyd_shortest =
      rounds_shortest (FreeStep cells size_x size_y) (free_points cells size_x size_y) inside
        (edges cells size_x size_y) edges-IsSound edges-le-inf
        (λ a b e. omega (arith, edges_hit cells size_x size_y a b e))

  FreeStep-reverse :
      (a b : Point) → FreeStep cells size_x size_y a b → FreeStep cells size_x size_y b a
  FreeStep-reverse a b e = record {
    on_board = has_neigh-IsCorrect size_x size_y a b e.beside;
    from_free = e.to_free;
    beside = has_neigh_comm size_x size_y a b e.on_board e.beside;
    to_free = e.from_free;
  }

  le_reverse : (a b : Point) → floyd cells size_x size_y a b ≤ floyd cells size_x size_y b a
  le_reverse a b = elim (ℕ_discrete (floyd cells size_x size_y b a) inf) [
    | yes e ↦ omega (arith, floyd_shortest.1 a b)
    | no h ↦
        floyd_shortest.2 a b (floyd cells size_x size_y b a)
          (Walk-reverse FreeStep-reverse (floyd_shortest.0 b a h))
          (omega (arith, floyd_shortest.1 b a))
  ]

  -- The distance from a to b is the distance from b to a.
  pub floyd_symmetric :
      (a b : Point) → floyd cells size_x size_y a b ≡ floyd cells size_x size_y b a
  floyd_symmetric a b = omega (arith, le_reverse a b, le_reverse b a)

  no_loop : (a : Point) (n : ℕ) → FreeWalk a a n → n ≢ 1
  no_loop a n (Walk.last e h) k = not-has_neigh_self size_x size_y a e.beside
  no_loop a n (Walk.step {m = m} e w h) k = omega (arith, Walk-pos w)

  -- A free cell with a free cell beside it has distance 2 from itself, not 0: the table has no zeros
  -- on the diagonal, and the shortest walk back takes two steps.
  pub floyd_diagonal :
      (a b : Point) → FreeStep cells size_x size_y a b → floyd cells size_x size_y a a ≡ 2
  floyd_diagonal a b e =
      let there_and_back : FreeWalk a a 2 =
        Walk.step e (Walk.last (FreeStep-reverse a b e) refl) refl in
      let below : floyd cells size_x size_y a a ≤ 2 =
        floyd_shortest.2 a a 2 there_and_back (omega arith) in
      let loop : FreeWalk a a (floyd cells size_x size_y a a) =
        floyd_shortest.0 a a (λ h. omega arith) in
      omega (arith, Walk-pos loop, no_loop a (floyd cells size_x size_y a a) loop)
