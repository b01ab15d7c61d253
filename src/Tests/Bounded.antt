-- ===== src/Tests/Bounded.antt =====
-- The scores on the rows of free cells: no plan makes them overflow.
use russian_ai_cup.Base.{◌≤◌, ◌≡◌, refl, pos, ◌-ℤ◌, ◌+ℤ◌, abs, true, some, arith}
use russian_ai_cup.Strategy.Point.{Point, is_correct}
use russian_ai_cup.Strategy.Turn.{State}
use russian_ai_cup.Strategy.Score.{score, mates_distance, shooting_enemies}
use russian_ai_cup.Strategy.Score.Machine.{machine_score}
use russian_ai_cup.Strategy.Score.Exact.{IsModerate, machine_score-eq}
use russian_ai_cup.Strategy.Search.Plans.{Plan}
use russian_ai_cup.Strategy.Search.Whole.{IsWhole}
use russian_ai_cup.Strategy.Search.Bounds.{IsTame, Plan-Grown}
use russian_ai_cup.Strategy.Search.Returns.{Plan-IsSafe}
use russian_ai_cup.Strategy.Turns.{start, troopers_of, begin_turn}
use russian_ai_cup.Tests.Turns.{sniper_here, view, start-here}

-- The distances from the cells of the row to the target and to the sniper.
near : (p : Point) → is_correct (pos 8) (pos 1) p ≡ true → abs (p.x -ℤ pos 7) ≤ 100
unfolding is_correct ◌-ℤ◌
near p h = ground arith

near_west : (p : Point) → is_correct (pos 8) (pos 1) p ≡ true → abs (p.x -ℤ pos 0) ≤ 100
unfolding is_correct ◌-ℤ◌
near_west p h = ground arith

view-IsTame : IsTame view
unfolding troopers_of
view-IsTame = record {
  enemies = omega arith;
  teammates = omega arith;
  direct = omega arith;
  collateral = omega arith;
  medikit = omega arith;
  medikit_self = omega arith;
  medic = omega arith;
  medic_self = omega arith;
  prone_damage = omega arith;
  kneeling_damage = omega arith;
  standing_damage = omega arith;
}

view-IsModerate : (e : State) → Plan view 10 (pos 10) (start sniper_here) e → IsModerate view e
unfolding start troopers_of mates_distance shooting_enemies begin_turn ◌+ℤ◌
view-IsModerate e plan =
    let grown = Plan-Grown view 10 (pos 10) (start sniper_here) e view-IsTame plan in
    let safe = Plan-IsSafe view 10 (pos 10) (start sniper_here) e start-here plan in
    record {
      team = omega arith;
      mate_damage = omega (arith, grown.mate_damage);
      damage = omega (arith, grown.damage);
      kills = omega (arith, grown.kills);
      enemies = omega arith;
      mates = omega (arith, near_west e.pos safe.on_board);
      target = omega (arith, near e.pos safe.on_board);
    }

pub view-scored :
    (e : State)
    → Plan view 10 (pos 10) (start sniper_here) e
    → machine_score view e ≡ some (score view e)
view-scored e plan = machine_score-eq view e (view-IsModerate e plan)

pub view-IsWhole : IsWhole view
unfolding begin_turn troopers_of is_correct ◌+ℤ◌
view-IsWhole = record {
  width = refl;
  height = refl;
  columns = refl;
  rows = (refl, (refl, (refl, (refl, (refl, (refl, (refl, (refl, tt))))))));
  visibilities = refl;
  target = refl;
  mates = (refl, tt);
  enemies = tt;
  stances = tt;
}
