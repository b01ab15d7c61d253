-- ===== src/Strategy/Turns/Sums.antt =====
-- The int arithmetic of the scores that a turn's search computes.
use russian_ai_cup.Base.{
  ℕ, suc, ◌*◌, ◌≤◌, ◌<◌, ◌≡◌, ◌≢◌, ap, ◌∙◌, ℤ, Bool, true, false, some, List, [], ◌∷◌, Member, here,
  there, length, if◌then◌else◌, arith,
}
use russian_ai_cup.Model.Trooper.{Trooper}
use russian_ai_cup.Model.World.{Cells}
use russian_ai_cup.Strategy.Point.{Point, point_of}
use russian_ai_cup.Strategy.Floyd.{Distances, inf, free_points, floyd}
use russian_ai_cup.Strategy.Floyd.Short.{floyd-le}
use russian_ai_cup.Strategy.Turn.{Turn, State, min_distance}
use russian_ai_cup.Strategy.Score.{is_shooting, shooting_enemies, mates_distance, score}
use russian_ai_cup.Strategy.Score.Machine.{machine_score}
use russian_ai_cup.Strategy.Score.Exact.{IsModerate, machine_score-eq}
use russian_ai_cup.Strategy.Search.Bounds.{IsTame, Plan-Grown}
use russian_ai_cup.Strategy.Search.Plans.{Plan}
use russian_ai_cup.Strategy.Turns.{start}

-- A state from which the table has a distance to the target and to every teammate.
pub record IsReached (t : Turn) (e : State) : Type 0 where
  pub target : t.floyd_dist e.pos t.target ≢ inf
  pub mates :
      (mate : Trooper) → Member mate t.teammates → t.floyd_dist e.pos (point_of mate.unit) ≢ inf

module _ (t : Turn) (cells : Cells) (size_x size_y : ℤ) where
  near :
      (a b : Point)
      → t.floyd_dist ≡ floyd cells size_x size_y
      → length (free_points cells size_x size_y) < 500_000
      → t.floyd_dist a b ≢ inf
      → min_distance t.floyd_dist a b ≤ 500_000
  near a b table small far =
      let e = ap (λ (d : Distances). d a b) table in
      omega (arith, e, floyd-le cells size_x size_y a b (λ k. far (e ∙ k)))

  mates_distance-le :
      (e : State) (mates : List Trooper)
      → ((mate : Trooper)
          → Member mate mates
          → min_distance t.floyd_dist e.pos (point_of mate.unit) ≤ 500_000)
      → mates_distance t e mates ≤ length mates * 500_000
  unfolding mates_distance
  mates_distance-le e [] h = omega arith
  mates_distance-le e (mate ∷ mates) h =
      omega (arith, h mate here, mates_distance-le e mates (λ m i. h m (there i)))

  if_le : (b : Bool) (n l : ℕ) → n ≤ l → (if b then suc n else n) ≤ suc l
  if_le true n l h = omega arith
  if_le false n l h = omega arith

  shooting_enemies-le :
      (e : State) (enemies : List Trooper) → shooting_enemies t e enemies ≤ length enemies
  unfolding shooting_enemies
  shooting_enemies-le e [] = omega arith
  shooting_enemies-le e (enemy ∷ enemies) =
      if_le (is_shooting t e enemy) (shooting_enemies t e enemies) (length enemies)
        (shooting_enemies-le e enemies)

  Plan-IsModerate :
      (points : ℤ) (e : State)
      → IsTame t
      → 0 < length t.teammates
      → t.floyd_dist ≡ floyd cells size_x size_y
      → length (free_points cells size_x size_y) < 500_000
      → Plan t 10 points (start t.self) e
      → IsReached t e
      → IsModerate t e
  unfolding start
  Plan-IsModerate points e tame some_team table small plan reached =
      let grown = Plan-Grown t 10 points (start t.self) e tame plan in
      let mates =
        mates_distance-le e t.teammates
          (λ mate m. near e.pos (point_of mate.unit) table small (reached.mates mate m)) in
      record {
        team = some_team;
        mate_damage = omega (arith, grown.mate_damage);
        damage = omega (arith, grown.damage);
        kills = omega (arith, grown.kills);
        enemies = omega (arith, shooting_enemies-le e t.enemies, tame.enemies);
        mates = omega (arith, mates, tame.teammates);
        target = omega (arith, near e.pos t.target table small reached.target);
      }

  -- In a turn of at most 19 troopers on each side, somebody in the team, and no damage or healing
  -- above 500 points, with the table that `floyd` computes for fewer than 500000 free cells: at the
  -- end of every plan of at most ten actions from where `run` starts the search, if the target and
  -- every teammate can be reached from there, no statement of the score overflows an int, the
  -- unsigned arithmetic of the line that divides included, and the machine's score is the score over
  -- the integers.
  pub Plan-machine_score :
      (points : ℤ) (e : State)
      → IsTame t
      → 0 < length t.teammates
      → t.floyd_dist ≡ floyd cells size_x size_y
      → length (free_points cells size_x size_y) < 500_000
      → Plan t 10 points (start t.self) e
      → IsReached t e
      → machine_score t e ≡ some (score t e)
  Plan-machine_score points e tame some_team table small plan reached =
      machine_score-eq t e (Plan-IsModerate points e tame some_team table small plan reached)
