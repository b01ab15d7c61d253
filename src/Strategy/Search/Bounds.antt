-- ===== src/Strategy/Search/Bounds.antt =====
-- How far a whole plan of the search moves what the score counts.
use russian_ai_cup.Base.{
  ℕ, suc, ◌*◌, ◌≤◌, ◌≡◌, refl, ◌⊎◌, inl, inr, ℤ, pos, ◌+ℤ◌, ltb_ℤ, abs, abs-sub, Bool, true, false,
  none, some, [], ◌∷◌, length, subst, sym, if◌then◌else◌, arith,
}
use russian_ai_cup.Model.Trooper.{Trooper, TrooperStance, prone, kneeling, standing, get_damage}
use russian_ai_cup.Model.Move.{
  ActionType, move, shoot, raise_stance, lower_stance, throw_grenade, use_medikit, eat_field_ration,
  heal,
}
use russian_ai_cup.Model.World.{is_visible}
use russian_ai_cup.Strategy.Point.{Point, point_of, has_neigh, neighs, distance_to}
use russian_ai_cup.Strategy.Floyd.{is_free}
use russian_ai_cup.Strategy.Turn.{Turn, State, make_action, make_action_to}
use russian_ai_cup.Strategy.Score.{collect}
use russian_ai_cup.Strategy.Expand.{
  Candidate, call, stop, heal_call, healed, is_field_medic, is_standing, is_prone, heal_calls,
  medikit_calls, explode, grenade_calls, medic_calls, shoot_call, shoot_calls, move_cost,
  move_calls, stance_calls, ration_calls, candidates, hit,
}
use russian_ai_cup.Strategy.Search.Every.{
  Every, Every-one, Every-append, if-Every, for_each-Every, with_points_all-Every, if_not-Every,
}
use russian_ai_cup.Strategy.Search.Growth.{
  Grown, Grown-refl, Grown-trans, Grown-le, hit-Grown, explode-Grown, collect-Grown, healed-le,
}
use russian_ai_cup.Strategy.Search.Plans.{Plan, rest, act}

module _ (t : Turn) where
  -- The sizes of a game: at most 19 troopers on each side, and no number of hit points above 500.
  pub record IsTame : Type 0 where
    pub enemies : length t.enemies ≤ 19
    pub teammates : length t.teammates ≤ 19
    pub direct : abs t.game.grenade_direct_damage ≤ 500
    pub collateral : abs t.game.grenade_collateral_damage ≤ 500
    pub medikit : abs t.game.medikit_bonus_hitpoints ≤ 500
    pub medikit_self : abs t.game.medikit_heal_self_bonus_hitpoints ≤ 500
    pub medic : abs t.game.field_medic_heal_bonus_hitpoints ≤ 500
    pub medic_self : abs t.game.field_medic_heal_self_bonus_hitpoints ≤ 500
    pub prone_damage : abs t.self.prone_damage ≤ 500
    pub kneeling_damage : abs t.self.kneeling_damage ≤ 500
    pub standing_damage : abs t.self.standing_damage ≤ 500

  -- One action from `s`: by 10000 points of damage and 58 kills at most.
  abbrev IsStep : State → Candidate → Type 0
  IsStep s (call a points s') = Grown 10_000 10_000 58 s s'
  IsStep s stop = Unit {0}

  heal_call-Every :
      (action : ActionType) (bonus : ℤ) (mate : Trooper) (points : ℤ) (s used : State)
      → abs bonus ≤ 500
      → Grown 0 0 0 s used
      → Every (IsStep s) (heal_call action bonus mate points used)
  unfolding heal_call
  heal_call-Every action bonus mate points s used h same =
      if-Every (IsStep s) (ltb_ℤ (pos 0) (healed bonus mate)) _ (λ e.
        Every-one (IsStep s) _ (record {
          damage = omega (arith, same.damage);
          mate_damage = omega (
            arith,
            same.mate_damage,
            abs-sub used.mate_damage (healed bonus mate),
            healed-le bonus mate e,
          );
          kills = omega (arith, same.kills);
        }))

  heal_calls-Every :
      (action : ActionType) (bonus self_bonus points : ℤ) (s used : State)
      → abs bonus ≤ 500
      → abs self_bonus ≤ 500
      → Grown 0 0 0 s used
      → Every (IsStep s) (heal_calls t action bonus self_bonus s used points)
  unfolding heal_calls
  heal_calls-Every action bonus self_bonus points s used h h' same =
      Every-append (IsStep s) _ _
        (for_each-Every (IsStep s) t.teammates _ (λ mate m.
          if-Every (IsStep s) (has_neigh t.size_x t.size_y s.pos (point_of mate.unit)) _
            (λ near. heal_call-Every action bonus mate points s used h same)))
        (heal_call-Every action self_bonus t.self points s used h' same)

  medikit_calls-Every :
      (points : ℤ) (s : State) → IsTame → Every (IsStep s) (medikit_calls t points s)
  unfolding medikit_calls
  medikit_calls-Every points s tame = if-Every (IsStep s) s.has_medkit _ (λ has.
      with_points_all-Every (IsStep s) points t.game.medikit_use_cost _ (λ points'.
        heal_calls-Every use_medikit t.game.medikit_bonus_hitpoints
          t.game.medikit_heal_self_bonus_hitpoints points' s (record s { has_medkit = false })
          tame.medikit tame.medikit_self
          (record { damage = omega arith; mate_damage = omega arith; kills = omega arith })))

  medic_calls-Every : (points : ℤ) (s : State) → IsTame → Every (IsStep s) (medic_calls t points s)
  unfolding medic_calls
  medic_calls-Every points s tame = if-Every (IsStep s) (is_field_medic t.self.type) _ (λ is.
      with_points_all-Every (IsStep s) points t.game.field_medic_heal_cost _ (λ points'.
        heal_calls-Every heal t.game.field_medic_heal_bonus_hitpoints
          t.game.field_medic_heal_self_bonus_hitpoints points' s s tame.medic tame.medic_self
          (Grown-refl 0 0 0 s)))

  explode-IsStep :
      (s : State) (enemy : Trooper) → IsTame → Grown 10_000 10_000 58 s (explode t s enemy)
  explode-IsStep s enemy tame =
      Grown-le (omega (arith, tame.enemies)) (omega (arith, tame.teammates))
        (omega (arith, tame.enemies, tame.teammates))
        (explode-Grown t 500 s enemy tame.direct tame.collateral)

  grenade_calls-Every :
      (points : ℤ) (s : State) → IsTame → Every (IsStep s) (grenade_calls t points s)
  unfolding grenade_calls
  grenade_calls-Every points s tame =
      let near : Trooper → Bool = λ enemy.
        t.fpu.le (distance_to t.fpu s.pos (point_of enemy.unit)) t.game.grenade_throw_range in
      let throw : ℤ → Trooper → Candidate = λ points' enemy.
        call (make_action_to throw_grenade (point_of enemy.unit)) points' (explode t s enemy) in
      if-Every (IsStep s) s.has_grenade _ (λ has.
        with_points_all-Every (IsStep s) points t.game.grenade_throw_cost _ (λ points'.
          for_each-Every (IsStep s) t.enemies
            (λ enemy. if near enemy then throw points' enemy ∷ [] else [])
            (λ enemy m.
              if-Every (IsStep s) (near enemy) (throw points' enemy ∷ []) (λ close.
                Every-one (IsStep s) (throw points' enemy) (explode-IsStep s enemy tame)))))

  damages :
      (stance : TrooperStance)
      → IsTame
      → (get_damage t.self stance ≡ none)
        ⊎ ((n : ℤ) × (get_damage t.self stance ≡ some n) × (abs n ≤ 500))
  unfolding get_damage
  damages prone tame = inr (t.self.prone_damage, refl, tame.prone_damage)
  damages kneeling tame = inr (t.self.kneeling_damage, refl, tame.kneeling_damage)
  damages standing tame = inr (t.self.standing_damage, refl, tame.standing_damage)
  damages _ tame = inl refl

  shoot_call-Every :
      (points : ℤ) (s : State) (enemy : Trooper)
      → IsTame
      → Every (IsStep s) (shoot_call t s points enemy)
  unfolding shoot_call
  shoot_call-Every points s enemy tame = elim (damages s.stance tame) [
    | inl e ↦ rw (shoot_call, e) (Every-one (IsStep s) stop tt)
    | inr (damage, e, h) ↦
        rw (shoot_call, e)
          (Every-one (IsStep s)
            (call (make_action_to shoot (point_of enemy.unit)) points (hit t damage enemy s))
            (Grown-le (omega arith) (omega arith) (omega arith) (hit-Grown t 500 damage enemy s h)))
  ]

  shoot_calls-Every : (points : ℤ) (s : State) → IsTame → Every (IsStep s) (shoot_calls t points s)
  unfolding shoot_calls
  shoot_calls-Every points s tame =
      with_points_all-Every (IsStep s) points t.self.shoot_cost _ (λ points'.
        for_each-Every (IsStep s) t.enemies _ (λ enemy m.
          if-Every (IsStep s)
            (is_visible t.fpu t.world t.self.shooting_range s.pos.x s.pos.y s.stance enemy.x enemy.y
              enemy.stance)
            _ (λ seen. shoot_call-Every points' s enemy tame)))

  -- What leaves the numbers alone.
  still :
      (s s' : State)
      → s'.damage ≡ s.damage
      → s'.mate_damage ≡ s.mate_damage
      → s'.kills ≡ s.kills
      → Grown 10_000 10_000 58 s s'
  still s s' d m k = record {
    damage = rw d (omega arith);
    mate_damage = rw m (omega arith);
    kills = rw k (omega arith);
  }

  move_calls-Every : (points : ℤ) (s : State) → Every (IsStep s) (move_calls t points s)
  unfolding move_calls
  move_calls-Every points s =
      let step : ℤ → Point → Candidate =
        λ points' n. call (make_action_to move n) points' (record s { pos = n }) in
      with_points_all-Every (IsStep s) points (move_cost t s.stance) _ (λ points'.
        for_each-Every (IsStep s) (neighs t.size_x t.size_y s.pos)
          (λ n. if is_free t.cells n then step points' n ∷ [] else [])
          (λ n m. if-Every (IsStep s) (is_free t.cells n) (step points' n ∷ []) (λ is.
            Every-one (IsStep s) (step points' n) (still s (record s { pos = n }) refl refl refl))))

  stance_calls-Every : (points : ℤ) (s : State) → Every (IsStep s) (stance_calls t points s)
  unfolding stance_calls
  stance_calls-Every points s =
      let up : State = record s { stance = if is_prone s.stance then kneeling else standing } in
      let down : State = record s { stance = if is_standing s.stance then kneeling else prone } in
      with_points_all-Every (IsStep s) points t.game.stance_change_cost _ (λ points'.
        Every-append (IsStep s) _ _
          (if_not-Every (IsStep s) (is_standing s.stance)
            (call (make_action raise_stance) points' up ∷ [])
            (λ low.
              Every-one (IsStep s) (call (make_action raise_stance) points' up)
                (still s up refl refl refl)))
          (if_not-Every (IsStep s) (is_prone s.stance)
            (call (make_action lower_stance) points' down ∷ [])
            (λ high.
              Every-one (IsStep s) (call (make_action lower_stance) points' down)
                (still s down refl refl refl))))

  ration_calls-Every : (points : ℤ) (s : State) → Every (IsStep s) (ration_calls t points s)
  unfolding ration_calls
  ration_calls-Every points s =
      let fed : State = record s { has_field_ration = false; used_field_ration = true } in
      if-Every (IsStep s) s.has_field_ration _ (λ has.
        with_points_all-Every (IsStep s) points t.game.field_ration_eat_cost _ (λ points'.
          Every-one (IsStep s)
            (call (make_action eat_field_ration)
              (points' +ℤ t.game.field_ration_bonus_action_points) fed)
            (still s fed refl refl refl)))

  candidates-Every : (points : ℤ) (s : State) → IsTame → Every (IsStep s) (candidates t points s)
  unfolding candidates
  candidates-Every points s tame = Every-append (IsStep s) _ _ (medikit_calls-Every points s tame) (
      Every-append (IsStep s) _ _ (grenade_calls-Every points s tame) (
        Every-append (IsStep s) _ _ (medic_calls-Every points s tame) (
          Every-append (IsStep s) _ _ (shoot_calls-Every points s tame) (
            Every-append (IsStep s) _ _ (move_calls-Every points s) (
              Every-append (IsStep s) _ _ (stance_calls-Every points s)
                (ration_calls-Every points s))))))

  -- From a state to the end of a plan of at most `left` actions.
  pub Plan-Grown :
      (left : ℕ) (points : ℤ) (s e : State)
      → IsTame
      → Plan t left points s e
      → Grown (left * 10_000) (left * 10_000) (left * 58) s e
  Plan-Grown left points s e tame (rest same) =
      subst (λ x. Grown (left * 10_000) (left * 10_000) (left * 58) s x) (sym same)
        (Grown-le (omega arith) (omega arith) (omega arith) (collect-Grown t s))
  Plan-Grown (suc left) points s e tame (act {points' = points'} {s' = s'} {a = a} m p) =
      let one : Grown 10_000 10_000 58 (collect t s) s' =
        candidates-Every points (collect t s) tame (call a points' s') m in
      Grown-le (omega arith) (omega arith) (omega arith)
        (Grown-trans (Grown-trans (collect-Grown t s) one) (Plan-Grown left points' s' e tame p))
