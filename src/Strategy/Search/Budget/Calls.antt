-- ===== src/Strategy/Search/Budget/Calls.antt =====
-- What every block of maximize_score takes from the action points.
use russian_ai_cup.Base.{
  ◌≡◌, refl, sym, ◌∙◌, inl, inr, ℤ, pos, ◌+ℤ◌, ◌-ℤ◌, ◌≤ℤ◌, ltb_ℤ, Bool, true, false, not, none,
  some, List, [], ◌∷◌, ◌++◌, Bool-cases, if◌then◌else◌,
}
use russian_ai_cup.Strategy.Turn.{Turn, State, make_action, make_action_to}
use russian_ai_cup.Model.Trooper.{Trooper, prone, kneeling, standing, get_damage}
use russian_ai_cup.Model.Move.{
  Move, ActionType, move, shoot, raise_stance, lower_stance, throw_grenade, use_medikit,
  eat_field_ration, heal,
}
use russian_ai_cup.Strategy.Point.{Point, point_of, has_neigh, neighs, distance_to}
use russian_ai_cup.Model.World.{is_visible}
use russian_ai_cup.Strategy.Floyd.{is_free}
use russian_ai_cup.Strategy.Expand.{
  Candidate, call, stop, for_each, with_points, heal_call, healed, is_field_medic, is_standing,
  is_prone, heal_calls, medikit_calls, explode, grenade_calls, medic_calls, shoot_call, shoot_calls,
  move_cost, move_calls, stance_calls, ration_calls, candidates, hit,
}
use russian_ai_cup.Strategy.Search.Every.{
  Every, Every-one, Every-append, if-Every, for_each-Every, with_points-Every, if_not-Every,
}
use russian_ai_cup.Strategy.Search.Legal.{cost_of}
use russian_ai_cup.Strategy.Search.Budget.{
  IsFrugal, IsSpent, not_negative, eaten, sum_not_negative, true_not_false, plain, foldl_same,
  if_same,
}

module _ (t : Turn) where
  module _ (points : ℤ) (s : State) (frugal : IsFrugal s) where
    abbrev pub AllSpent : List Candidate → Type 0
    AllSpent cs = Every (IsSpent t points s) cs

    -- One candidate that takes its cost and leaves the ration.
    one :
        (a : Move) (s' : State)
        → s'.used_field_ration ≡ s.used_field_ration
        → s'.has_field_ration ≡ s.has_field_ration
        → cost_of t s.stance a.action ≤ℤ points
        → AllSpent (call a (points -ℤ cost_of t s.stance a.action) s' ∷ [])
    one a s' same has paid =
        Every-one (IsSpent t points s) (call a (points -ℤ cost_of t s.stance a.action) s')
          (plain t a points s s' same has frugal paid)

    heal_call_spent :
        (action : ActionType) (bonus : ℤ) (mate : Trooper) (used : State)
        → used.used_field_ration ≡ s.used_field_ration
        → used.has_field_ration ≡ s.has_field_ration
        → cost_of t s.stance action ≤ℤ points
        → AllSpent (heal_call action bonus mate (points -ℤ cost_of t s.stance action) used)
    unfolding heal_call
    heal_call_spent action bonus mate used same has paid =
        if-Every (IsSpent t points s) (ltb_ℤ (pos 0) (healed bonus mate)) _ (λ _.
          one (make_action_to action (point_of mate.unit))
            (record used { mate_damage = used.mate_damage -ℤ healed bonus mate }) same has paid)

    heal_calls_spent :
        (action : ActionType) (bonus self_bonus : ℤ) (used : State)
        → used.used_field_ration ≡ s.used_field_ration
        → used.has_field_ration ≡ s.has_field_ration
        → cost_of t s.stance action ≤ℤ points
        → AllSpent
            (heal_calls t action bonus self_bonus s used (points -ℤ cost_of t s.stance action))
    unfolding heal_calls
    heal_calls_spent action bonus self_bonus used same has paid =
        Every-append (IsSpent t points s) _ _
          (for_each-Every (IsSpent t points s) t.teammates _ (λ mate m.
            if-Every (IsSpent t points s) (has_neigh t.size_x t.size_y s.pos (point_of mate.unit)) _
              (λ _. heal_call_spent action bonus mate used same has paid)))
          (heal_call_spent action self_bonus t.self used same has paid)

    medikit_calls_spent : AllSpent (medikit_calls t points s)
    unfolding medikit_calls
    medikit_calls_spent =
        let cost = t.game.medikit_use_cost in
        let used : State = record s { has_medkit = false } in
        let calls : ℤ → List Candidate =
          heal_calls t use_medikit t.game.medikit_bonus_hitpoints
            t.game.medikit_heal_self_bonus_hitpoints s used in
        if-Every (IsSpent t points s) s.has_medkit (with_points points cost calls) (λ _.
          with_points-Every (IsSpent t points s) points cost calls (λ paid.
            heal_calls_spent use_medikit t.game.medikit_bonus_hitpoints
              t.game.medikit_heal_self_bonus_hitpoints used refl refl paid))

    medic_calls_spent : AllSpent (medic_calls t points s)
    unfolding medic_calls
    medic_calls_spent =
        let cost = t.game.field_medic_heal_cost in
        let calls : ℤ → List Candidate =
          heal_calls t heal t.game.field_medic_heal_bonus_hitpoints
            t.game.field_medic_heal_self_bonus_hitpoints s s in
        if-Every (IsSpent t points s) (is_field_medic t.self.type) (with_points points cost calls)
          (λ _. with_points-Every (IsSpent t points s) points cost calls (λ paid.
            heal_calls_spent heal t.game.field_medic_heal_bonus_hitpoints
              t.game.field_medic_heal_self_bonus_hitpoints s refl refl paid))

    explode-keeps :
        (enemy : Trooper)
        → ((explode t s enemy).used_field_ration ≡ s.used_field_ration)
          × ((explode t s enemy).has_field_ration ≡ s.has_field_ration)
    unfolding explode
    explode-keeps enemy =
        let (a, b) = foldl_same t _ (λ s' n. if_same t _ s' _ (refl, refl)) t.enemies _ in
        let (c, d) = foldl_same t _ (λ s' n. if_same t _ s' _ (refl, refl)) t.teammates _ in
        (c ∙ a, d ∙ b)

    grenade_calls_spent : AllSpent (grenade_calls t points s)
    unfolding grenade_calls
    grenade_calls_spent =
        let cost = t.game.grenade_throw_cost in
        let near : Trooper → Bool = λ enemy.
          t.fpu.le (distance_to t.fpu s.pos (point_of enemy.unit)) t.game.grenade_throw_range in
        let throw : ℤ → Trooper → List Candidate = λ points' enemy.
          call (make_action_to throw_grenade (point_of enemy.unit)) points' (explode t s enemy)
          ∷ [] in
        let body : ℤ → Trooper → List Candidate =
          λ points' enemy. if near enemy then throw points' enemy else [] in
        if-Every (IsSpent t points s) s.has_grenade
          (with_points points cost (λ points'. for_each t.enemies (body points')))
          (λ _.
            with_points-Every (IsSpent t points s) points cost
              (λ points'. for_each t.enemies (body points'))
              (λ paid.
                for_each-Every (IsSpent t points s) t.enemies (body (points -ℤ cost)) (λ enemy m.
                  if-Every (IsSpent t points s) (near enemy) (throw (points -ℤ cost) enemy) (λ _.
                    let (same, has) = explode-keeps enemy in
                    one (make_action_to throw_grenade (point_of enemy.unit)) (explode t s enemy)
                      same has paid))))

    shoot_call_spent :
        (enemy : Trooper)
        → t.self.shoot_cost ≤ℤ points
        → AllSpent (shoot_call t s (points -ℤ t.self.shoot_cost) enemy)
    unfolding shoot_call
    shoot_call_spent enemy paid =
        elim (get_damage t.self s.stance)
          as (λ d. AllSpent (elim d [
            | some damage ↦
                call (make_action_to shoot (point_of enemy.unit)) (points -ℤ t.self.shoot_cost)
                  (hit t damage enemy s)
                ∷ []
            | none ↦ stop ∷ []
          ])) [
            | some damage ↦ Every-one (IsSpent t points s) _ (
                plain t (make_action_to shoot (point_of enemy.unit)) points s (hit t damage enemy s)
                  refl refl frugal paid)
            | none ↦ Every-one (IsSpent t points s) stop tt
          ]

    shoot_calls_spent : AllSpent (shoot_calls t points s)
    unfolding shoot_calls
    shoot_calls_spent =
        let cost = t.self.shoot_cost in
        let sees : Trooper → Bool = λ enemy.
          is_visible t.fpu t.world t.self.shooting_range s.pos.x s.pos.y s.stance enemy.x enemy.y
            enemy.stance in
        let body : ℤ → Trooper → List Candidate =
          λ points' enemy. if sees enemy then shoot_call t s points' enemy else [] in
        with_points-Every (IsSpent t points s) points cost
          (λ points'. for_each t.enemies (body points'))
          (λ paid. for_each-Every (IsSpent t points s) t.enemies (body (points -ℤ cost)) (λ enemy m.
            if-Every (IsSpent t points s) (sees enemy) (shoot_call t s (points -ℤ cost) enemy)
              (λ _. shoot_call_spent enemy paid)))

    move_calls_spent : AllSpent (move_calls t points s)
    unfolding move_calls
    move_calls_spent =
        let cost = move_cost t s.stance in
        let step : ℤ → Point → List Candidate =
          λ points' n. call (make_action_to move n) points' (record s { pos = n }) ∷ [] in
        let body : ℤ → Point → List Candidate =
          λ points' n. if is_free t.cells n then step points' n else [] in
        let around = neighs t.size_x t.size_y s.pos in
        with_points-Every (IsSpent t points s) points cost
          (λ points'. for_each around (body points'))
          (λ paid. for_each-Every (IsSpent t points s) around (body (points -ℤ cost)) (λ n m.
            if-Every (IsSpent t points s) (is_free t.cells n) (step (points -ℤ cost) n)
              (λ _. one (make_action_to move n) (record s { pos = n }) refl refl paid)))

    stance_calls_spent : AllSpent (stance_calls t points s)
    unfolding stance_calls
    stance_calls_spent =
        let cost = t.game.stance_change_cost in
        let up : State = record s { stance = if is_prone s.stance then kneeling else standing } in
        let down : State = record s { stance = if is_standing s.stance then kneeling else prone } in
        let ups : ℤ → List Candidate = λ points'. call (make_action raise_stance) points' up ∷ [] in
        let downs : ℤ → List Candidate =
          λ points'. call (make_action lower_stance) points' down ∷ [] in
        with_points-Every (IsSpent t points s) points cost
          (λ points'.
            (if not (is_standing s.stance) then ups points' else [])
            ++ (if not (is_prone s.stance) then downs points' else []))
          (λ paid.
            Every-append (IsSpent t points s)
              (if not (is_standing s.stance) then ups (points -ℤ cost) else [])
              (if not (is_prone s.stance) then downs (points -ℤ cost) else [])
              (if_not-Every (IsSpent t points s) (is_standing s.stance) (ups (points -ℤ cost))
                (λ _. one (make_action raise_stance) up refl refl paid))
              (if_not-Every (IsSpent t points s) (is_prone s.stance) (downs (points -ℤ cost))
                (λ _. one (make_action lower_stance) down refl refl paid)))

    uneaten : s.has_field_ration ≡ true → s.used_field_ration ≡ false
    uneaten has = elim (Bool-cases s.used_field_ration) [
      | inl e ↦ absurd (true_not_false t (sym has ∙ frugal e))
      | inr e ↦ e
    ]

    ration_calls_spent : AllSpent (ration_calls t points s)
    unfolding ration_calls
    ration_calls_spent =
        let cost = t.game.field_ration_eat_cost in
        let bonus = t.game.field_ration_bonus_action_points in
        let eat : ℤ → List Candidate = λ points'.
          call (make_action eat_field_ration) (points' +ℤ bonus)
            (record s { has_field_ration = false; used_field_ration = true })
          ∷ [] in
        if-Every (IsSpent t points s) s.has_field_ration (with_points points cost eat) (λ has.
          with_points-Every (IsSpent t points s) points cost eat (λ paid.
            Every-one (IsSpent t points s)
              (call (make_action eat_field_ration) ((points -ℤ cost) +ℤ bonus)
                (record s { has_field_ration = false; used_field_ration = true }))
              (
                rw (uneaten has) (eaten t points cost bonus),
                (λ _. refl),
                (λ some.
                    sum_not_negative t (points -ℤ cost) bonus (not_negative t points cost paid)
                      some),
              )))

    -- Every candidate of a state in which no ration is both eaten and at hand.
    pub candidates_spent : AllSpent (candidates t points s)
    unfolding candidates
    candidates_spent = Every-append (IsSpent t points s) _ _ medikit_calls_spent (
        Every-append (IsSpent t points s) _ _ grenade_calls_spent (
          Every-append (IsSpent t points s) _ _ medic_calls_spent (
            Every-append (IsSpent t points s) _ _ shoot_calls_spent (
              Every-append (IsSpent t points s) _ _ move_calls_spent
                (Every-append (IsSpent t points s) _ _ stance_calls_spent ration_calls_spent)))))
