-- ===== src/Strategy/Turns/Reach.antt =====
-- The target that SlavaStrategy::run goes for, against the map: the loop over `rand` and the table of
-- `floyd` together.
use russian_ai_cup.Base.{ℕ, ◌≤◌, ◌<◌, ◌≡◌, ◌≢◌, ap, ◌∙◌, ℤ, false, ◌||◌, some, leb, ◌==◌, arith}
use russian_ai_cup.Model.World.{Cells}
use russian_ai_cup.Strategy.Point.{Point}
use russian_ai_cup.Strategy.Floyd.{inf, floyd}
use russian_ai_cup.Strategy.Floyd.Shortest.{FreeWalk, floyd_shortest}
use russian_ai_cup.Strategy.Turns.{Library, Globals, is_stale, pick_target}
use russian_ai_cup.Strategy.Turns.Target.{pick_target-keeps}

settled_distance : (d : ℕ) → (leb d 5 || d == inf) ≡ false → (5 < d) × (d ≢ inf)
settled_distance d h = (ground arith, λ e. ground arith)

module _ {R : Type 0} (lib : Library R) (cells : Cells) (size_x size_y : ℤ) (self : Point)
    (fuel : ℕ) (g g' : Globals R) where
  -- If the table is the one that `floyd` computes, a target that the loop ends with can be reached
  -- over free cells of the first world: by a walk of more than five steps, and by no shorter one of
  -- fewer than `inf` steps.
  pub pick_target-reachable :
      g.floyd_dist ≡ floyd cells size_x size_y
      → pick_target lib fuel self g ≡ some g'
      → (n : ℕ) × FreeWalk cells size_x size_y self g'.target n
        × (5 < n)
        × ((m : ℕ) → FreeWalk cells size_x size_y self g'.target m → m < inf → n ≤ m)
  unfolding is_stale
  pick_target-reachable table picked =
      let ((_, _, same, _), settled) = pick_target-keeps lib self fuel g g' picked in
      let here : g'.floyd_dist self g'.target ≡ floyd cells size_x size_y self g'.target =
        ap (λ (d : Point → Point → ℕ). d self g'.target) (same ∙ table) in
      let (far, near) =
        settled_distance (floyd cells size_x size_y self g'.target) (rw here at settled) in
      let (walks, _, shortest) = floyd_shortest cells size_x size_y in
      (
        floyd cells size_x size_y self g'.target,
        walks self g'.target near,
        far,
        λ m walk short. shortest self g'.target m walk short,
      )
