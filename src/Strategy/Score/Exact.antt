-- ===== src/Strategy/Score/Exact.antt =====
-- Where the machine's score is the score over the integers.
use russian_ai_cup.Base.{
  ℕ, ◌+◌, ◌*◌, ◌/◌, ◌^◌, ◌≤◌, ◌<◌, ◌≡◌, refl, ap, ◌∙◌, ℤ, pos, ◌+ℤ◌, ◌-ℤ◌, ◌*ℤ◌, ◌==ℤ◌, leb_ℤ, abs,
  pos-mul, pos-add, Bool, not, ◌&&◌, some, List, [], ◌∷◌, length, if◌then◌else◌, arith,
}
use russian_ai_cup.Model.Trooper.{Trooper}
use russian_ai_cup.Model.Trooper.Methods.{get_type}
use russian_ai_cup.Strategy.Point.{point_of}
use russian_ai_cup.Strategy.Turn.{Turn, State, min_distance}
use russian_ai_cup.Strategy.Score.{
  is_scout, is_close_to_commander, mates_distance, shooting_enemies, int_of, score,
}
use russian_ai_cup.Strategy.Score.Machine.{
  ◌>>=◌, checked, sub_product, sub_target, add_commander, add_distances, score_before_mates,
  score_from_mates, machine_score,
}
use russian_ai_cup.Strategy.Score.Small.{
  Small, bind-some, int_of-le_one, checked-eq, add_product-Small, sub_product-Small,
  sub_share-Small, if_Small,
}

module _ (t : Turn) (s : State) where
  -- Bounds on what the score counts: the hit points at stake, the troopers, the distances to the
  -- teammates and the target; somebody is in the team.
  pub record IsModerate : Type 0 where
    pub team : 0 < length t.teammates
    pub mate_damage : abs s.mate_damage ≤ 100_000
    pub damage : abs s.damage ≤ 100_000
    pub kills : abs s.kills ≤ 1000
    pub enemies : shooting_enemies t s t.enemies ≤ 1000
    pub mates : mates_distance t s t.teammates ≤ 10_000_000
    pub target : min_distance t.floyd_dist s.pos t.target ≤ 10_000_000

  add_distances-eq :
      (mates : List Trooper) (from : ℕ)
      → from + mates_distance t s mates < 2 ^ 31
      → add_distances t s mates (pos from) ≡ some (pos (from + mates_distance t s mates))
  unfolding add_distances mates_distance
  add_distances-eq [] from h = ap (λ (n : ℕ). some (pos n)) (omega arith)
  add_distances-eq (mate ∷ mates) from h =
      let d : ℕ = min_distance t.floyd_dist s.pos (point_of mate.unit) in
      bind-some _ (ap checked (pos-add from d) ∙ checked-eq (pos (from + d)) (omega arith))
      ∙ add_distances-eq mates (from + d) (omega arith)
      ∙ ap (λ (n : ℕ). some (pos n)) (omega arith)

  add_distances-all :
      mates_distance t s t.teammates < 2 ^ 31
      → add_distances t s t.teammates (pos 0) ≡ some (pos (mates_distance t s t.teammates))
  add_distances-all h =
      add_distances-eq t.teammates 0 (omega arith) ∙ ap (λ (n : ℕ). some (pos n)) (omega arith)

  -- The test of the target's part and of the commander's.
  abbrev seeks : Bool
  seeks = leb_ℤ (pos 0) s.mate_damage && s.damage ==ℤ pos 0

  abbrev follows : Bool
  follows = not (is_scout (get_type t.self))

  -- The score before the line that divides, and after it.
  abbrev before : ℤ
  before =
      pos 0
      -ℤ pos 2000 *ℤ s.mate_damage
      +ℤ pos 300 *ℤ s.damage
      +ℤ pos 20000 *ℤ s.kills
      -ℤ pos 10000 *ℤ pos (shooting_enemies t s t.enemies)
      +ℤ pos 400 *ℤ int_of s.has_medkit
      +ℤ pos 400 *ℤ int_of s.has_field_ration
      +ℤ pos 400 *ℤ int_of s.has_grenade

  abbrev base : ℤ
  base = before -ℤ pos (60 * mates_distance t s t.teammates / length t.teammates)

  abbrev walked : ℤ
  walked = if seeks then base -ℤ pos 55 *ℤ pos (min_distance t.floyd_dist s.pos t.target) else base

  abbrev whole : ℤ
  whole =
      if follows
      then walked +ℤ pos 500 *ℤ int_of (is_close_to_commander t s t.teammates)
      else walked

  whole-eq : whole ≡ score t s
  unfolding score
  whole-eq =
      rw
        (
          pos-mul 10000 (shooting_enemies t s t.enemies),
          pos-mul 55 (min_distance t.floyd_dist s.pos t.target),
        )
        refl

  score_before_mates-Small : IsModerate → Small 260_001_200 (score_before_mates t s) before
  unfolding score_before_mates
  score_before_mates-Small h =
      let p1 : Small 200_000_000 (sub_product 2000 s.mate_damage (pos 0)) _ =
        sub_product-Small 0 200_000_000 2000 s.mate_damage (pos 0) (omega arith)
          (omega (arith, h.mate_damage)) (omega arith) in
      let p2 =
        add_product-Small 200_000_000 30_000_000 300 s.damage _ p1.size (omega (arith, h.damage))
          (omega arith) in
      let p3 =
        add_product-Small 230_000_000 20_000_000 20000 s.kills _ p2.size (omega (arith, h.kills))
          (omega arith) in
      let p4 =
        sub_product-Small 250_000_000 10_000_000 10000 (pos (shooting_enemies t s t.enemies)) _
          p3.size (omega (arith, h.enemies)) (omega arith) in
      let p5 =
        add_product-Small 260_000_000 400 400 (int_of s.has_medkit) _ p4.size
          (omega (arith, int_of-le_one s.has_medkit)) (omega arith) in
      let p6 =
        add_product-Small 260_000_400 400 400 (int_of s.has_field_ration) _ p5.size
          (omega (arith, int_of-le_one s.has_field_ration)) (omega arith) in
      let p7 =
        add_product-Small 260_000_800 400 400 (int_of s.has_grenade) _ p6.size
          (omega (arith, int_of-le_one s.has_grenade)) (omega arith) in
      record {
        value =
            bind-some _ p1.value
            ∙ bind-some _ p2.value
            ∙ bind-some _ p3.value
            ∙ bind-some _ p4.value
            ∙ bind-some _ p5.value
            ∙ bind-some _ p6.value
            ∙ p7.value;
        size = p7.size;
      }

  score_from_mates-eq :
      IsModerate
      → abs before ≤ 260_001_200
      → score_from_mates t s (pos (mates_distance t s t.teammates)) before ≡ some whole
  unfolding score_from_mates sub_target add_commander
  score_from_mates-eq h small =
      let p8 =
        sub_share-Small 260_001_200 600_000_000 60 (mates_distance t s t.teammates)
          (length t.teammates) before small (omega (arith, h.mates)) (omega arith) h.team in
      let p9 =
        if_Small 860_001_200 550_000_000 seeks base
          (sub_product-Small 860_001_200 550_000_000 55
            (pos (min_distance t.floyd_dist s.pos t.target)) base p8.size (omega (arith, h.target))
            (omega arith))
          p8.size in
      let p10 =
        if_Small 1_410_001_200 500 follows walked
          (add_product-Small 1_410_001_200 500 500 (int_of (is_close_to_commander t s t.teammates))
            walked p9.size (omega (arith, int_of-le_one (is_close_to_commander t s t.teammates)))
            (omega arith))
          p9.size in
      bind-some (λ x. sub_target t s x >>= λ s9. add_commander t s s9) p8.value
      ∙ bind-some (add_commander t s) p9.value
      ∙ p10.value

  -- On a moderate state no statement of the score overflows an int, the unsigned arithmetic of the
  -- line that divides included, and the machine's score is the score over the integers.
  pub machine_score-eq : IsModerate → machine_score t s ≡ some (score t s)
  unfolding machine_score
  machine_score-eq h =
      let first = score_before_mates-Small h in
      bind-some _ (add_distances-all (omega (arith, h.mates)))
      ∙ bind-some (score_from_mates t s (pos (mates_distance t s t.teammates))) first.value
      ∙ score_from_mates-eq h first.size
      ∙ ap some whole-eq
