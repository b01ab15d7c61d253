-- ===== src/Strategy/Search/Legal/Calls.antt =====
-- Every block of maximize_score makes good candidates.
use russian_ai_cup.Base.{
  ◌≡◌, refl, ◌⊎◌, inl, inr, ℤ, pos, ◌+ℤ◌, ◌-ℤ◌, ◌≤ℤ◌, ltb_ℤ, Bool, true, false, not, List, [], ◌∷◌,
  ◌++◌, Member, if◌then◌else◌, arith,
}
use russian_ai_cup.Model.Trooper.{Trooper, TrooperStance, prone, kneeling, standing}
use russian_ai_cup.Model.Move.{
  ActionType, move, shoot, raise_stance, lower_stance, throw_grenade, use_medikit, eat_field_ration,
  heal,
}
use russian_ai_cup.Strategy.Point.{Point, point_of, has_neigh, neighs, distance_to}
use russian_ai_cup.Model.World.{is_visible}
use russian_ai_cup.Strategy.Point.Neighs.{neighs_iff, has_neigh-IsCorrect}
use russian_ai_cup.Strategy.Floyd.{is_free}
use russian_ai_cup.Strategy.Turn.{Turn, State, make_action, make_action_to}
use russian_ai_cup.Strategy.Expand.{
  Candidate, call, for_each, with_points, heal_call, healed, is_field_medic, is_standing, is_prone,
  heal_calls, medikit_calls, explode, grenade_calls, medic_calls, shoot_call, shoot_calls,
  move_cost, move_calls, stance_calls, ration_calls, candidates, hit,
}
use russian_ai_cup.Strategy.Search.Every.{
  Every-one, Every-append, if-Every, for_each-Every, with_points-Every, if_not-Every,
}
use russian_ai_cup.Strategy.Search.Legal.{
  is_named, IsSafe, cost_of, walks, shoots, throws, raises, lowers, eats, treats, IsGood, AllGood,
}
use russian_ai_cup.Strategy.Search.Legal.Tools.{explode-IsSafe, get_damage-is_named}

module _ (t : Turn) where
  -- A trooper next to the state, or the trooper itself.
  abbrev IsPatient : State → Trooper → Type 0
  IsPatient s mate =
      (mate ≡ t.self)
      ⊎ (Member mate t.teammates × (has_neigh t.size_x t.size_y s.pos (point_of mate.unit) ≡ true))

  heal_call_good :
      (action : ActionType) (bonus : ℤ) (mate : Trooper) (points points' : ℤ) (s used : State)
      → ((action ≡ use_medikit) × (s.has_medkit ≡ true))
        ⊎ ((action ≡ heal) × (is_field_medic t.self.type ≡ true))
      → cost_of t s.stance action ≤ℤ points
      → IsSafe t used
      → IsPatient s mate
      → AllGood t points s (heal_call action bonus mate points' used)
  unfolding heal_call
  heal_call_good action bonus mate points points' s used kit paid safe near =
      if-Every (IsGood t points s) (ltb_ℤ (pos 0) (healed bonus mate)) _ (λ _.
        Every-one (IsGood t points s) _ (
          treats mate near kit refl,
          paid,
          record { named = safe.named; on_board = safe.on_board },
        ))

  heal_calls_good :
      (action : ActionType) (bonus self_bonus points points' : ℤ) (s used : State)
      → ((action ≡ use_medikit) × (s.has_medkit ≡ true))
        ⊎ ((action ≡ heal) × (is_field_medic t.self.type ≡ true))
      → cost_of t s.stance action ≤ℤ points
      → IsSafe t used
      → AllGood t points s (heal_calls t action bonus self_bonus s used points')
  unfolding heal_calls
  heal_calls_good action bonus self_bonus points points' s used kit paid safe =
      Every-append (IsGood t points s) _ _
        (for_each-Every (IsGood t points s) t.teammates _ (λ mate m.
          if-Every (IsGood t points s) (has_neigh t.size_x t.size_y s.pos (point_of mate.unit)) _
            (λ near.
              heal_call_good action bonus mate points points' s used kit paid safe
                (inr (m, near)))))
        (heal_call_good action self_bonus t.self points points' s used kit paid safe (inl refl))

  medikit_calls_good :
      (points : ℤ) (s : State) → IsSafe t s → AllGood t points s (medikit_calls t points s)
  unfolding medikit_calls
  medikit_calls_good points s safe =
      let used : State = record s { has_medkit = false } in
      let calls : ℤ → List Candidate =
        heal_calls t use_medikit t.game.medikit_bonus_hitpoints
          t.game.medikit_heal_self_bonus_hitpoints s used in
      if-Every (IsGood t points s) s.has_medkit (with_points points t.game.medikit_use_cost calls)
        (λ has. with_points-Every (IsGood t points s) points t.game.medikit_use_cost calls (λ paid.
          heal_calls_good use_medikit t.game.medikit_bonus_hitpoints
            t.game.medikit_heal_self_bonus_hitpoints points (points -ℤ t.game.medikit_use_cost) s
            used (inl (refl, has)) paid (record { named = safe.named; on_board = safe.on_board })))

  medic_calls_good :
      (points : ℤ) (s : State) → IsSafe t s → AllGood t points s (medic_calls t points s)
  unfolding medic_calls
  medic_calls_good points s safe =
      let calls : ℤ → List Candidate =
        heal_calls t heal t.game.field_medic_heal_bonus_hitpoints
          t.game.field_medic_heal_self_bonus_hitpoints s s in
      let cost = t.game.field_medic_heal_cost in
      if-Every (IsGood t points s) (is_field_medic t.self.type) (with_points points cost calls)
        (λ is. with_points-Every (IsGood t points s) points cost calls (λ paid.
          heal_calls_good heal t.game.field_medic_heal_bonus_hitpoints
            t.game.field_medic_heal_self_bonus_hitpoints points (points -ℤ cost) s s
            (inr (refl, is)) paid safe))

  grenade_calls_good :
      (points : ℤ) (s : State) → IsSafe t s → AllGood t points s (grenade_calls t points s)
  unfolding grenade_calls
  grenade_calls_good points s safe =
      let cost = t.game.grenade_throw_cost in
      let near : Trooper → Bool = λ enemy.
        t.fpu.le (distance_to t.fpu s.pos (point_of enemy.unit)) t.game.grenade_throw_range in
      let throw : ℤ → Trooper → List Candidate = λ points' enemy.
        call (make_action_to throw_grenade (point_of enemy.unit)) points' (explode t s enemy)
        ∷ [] in
      let calls : ℤ → List Candidate =
        λ points'. for_each t.enemies (λ enemy. if near enemy then throw points' enemy else []) in
      if-Every (IsGood t points s) s.has_grenade (with_points points cost calls) (λ has.
        with_points-Every (IsGood t points s) points cost calls (λ paid.
          for_each-Every (IsGood t points s) t.enemies
            (λ enemy. if near enemy then throw (points -ℤ cost) enemy else [])
            (λ enemy m.
              if-Every (IsGood t points s) (near enemy) (throw (points -ℤ cost) enemy) (λ close.
                Every-one (IsGood t points s)
                  (call (make_action_to throw_grenade (point_of enemy.unit)) (points -ℤ cost)
                    (explode t s enemy))
                  (throws enemy m has close refl, paid, explode-IsSafe t s enemy safe)))))

  shoot_call_good :
      (points points' : ℤ) (s : State) (enemy : Trooper)
      → IsSafe t s
      → Member enemy t.enemies
      → is_visible t.fpu t.world t.self.shooting_range s.pos.x s.pos.y s.stance enemy.x enemy.y
          enemy.stance
        ≡ true
      → t.self.shoot_cost ≤ℤ points
      → AllGood t points s (shoot_call t s points' enemy)
  unfolding shoot_call
  shoot_call_good points points' s enemy safe m seen paid =
      let (damage, e) = get_damage-is_named t s.stance safe.named in
      rw (shoot_call, e)
        (Every-one (IsGood t points s)
          (call (make_action_to shoot (point_of enemy.unit)) points' (hit t damage enemy s))
          (shoots enemy m seen refl, paid, record { named = safe.named; on_board = safe.on_board }))

  shoot_calls_good :
      (points : ℤ) (s : State) → IsSafe t s → AllGood t points s (shoot_calls t points s)
  unfolding shoot_calls
  shoot_calls_good points s safe =
      let sees : Trooper → Bool = λ enemy.
        is_visible t.fpu t.world t.self.shooting_range s.pos.x s.pos.y s.stance enemy.x enemy.y
          enemy.stance in
      let cost = t.self.shoot_cost in
      let shot : ℤ → Trooper → List Candidate =
        λ points' enemy. if sees enemy then shoot_call t s points' enemy else [] in
      with_points-Every (IsGood t points s) points cost
        (λ points'. for_each t.enemies (shot points'))
        (λ paid. for_each-Every (IsGood t points s) t.enemies (shot (points -ℤ cost)) (λ enemy m.
          if-Every (IsGood t points s) (sees enemy) (shoot_call t s (points -ℤ cost) enemy)
            (λ seen. shoot_call_good points (points -ℤ cost) s enemy safe m seen paid)))

  move_calls_good :
      (points : ℤ) (s : State) → IsSafe t s → AllGood t points s (move_calls t points s)
  unfolding move_calls
  move_calls_good points s safe =
      let cost = move_cost t s.stance in
      let step : ℤ → Point → Candidate =
        λ points' n. call (make_action_to move n) points' (record s { pos = n }) in
      let steps : ℤ → Point → List Candidate =
        λ points' n. if is_free t.cells n then step points' n ∷ [] else [] in
      let around = neighs t.size_x t.size_y s.pos in
      with_points-Every (IsGood t points s) points cost (λ points'. for_each around (steps points'))
        (λ paid. for_each-Every (IsGood t points s) around (steps (points -ℤ cost)) (λ n m.
          if-Every (IsGood t points s) (is_free t.cells n) (step (points -ℤ cost) n ∷ []) (λ is.
            let next : has_neigh t.size_x t.size_y s.pos n ≡ true =
              (neighs_iff t.size_x t.size_y s.pos n safe.on_board).0 m in
            Every-one (IsGood t points s) (step (points -ℤ cost) n) (
              walks n next is refl,
              paid,
              record {
                named = safe.named;
                on_board = has_neigh-IsCorrect t.size_x t.size_y s.pos n next;
              },
            ))))

  raised_named :
      (stance : TrooperStance) → is_named (if is_prone stance then kneeling else standing) ≡ true
  raised_named stance = ground arith

  lowered_named :
      (stance : TrooperStance) → is_named (if is_standing stance then kneeling else prone) ≡ true
  lowered_named stance = ground arith

  stance_calls_good :
      (points : ℤ) (s : State) → IsSafe t s → AllGood t points s (stance_calls t points s)
  unfolding stance_calls
  stance_calls_good points s safe =
      let cost = t.game.stance_change_cost in
      let up : ℤ → Candidate = λ points'.
        call (make_action raise_stance) points'
          (record s { stance = if is_prone s.stance then kneeling else standing }) in
      let down : ℤ → Candidate = λ points'.
        call (make_action lower_stance) points'
          (record s { stance = if is_standing s.stance then kneeling else prone }) in
      let ups : ℤ → List Candidate =
        λ points'. if not (is_standing s.stance) then up points' ∷ [] else [] in
      let downs : ℤ → List Candidate =
        λ points'. if not (is_prone s.stance) then down points' ∷ [] else [] in
      with_points-Every (IsGood t points s) points cost (λ points'. ups points' ++ downs points')
        (λ paid.
          Every-append (IsGood t points s) (ups (points -ℤ cost)) (downs (points -ℤ cost))
            (if_not-Every (IsGood t points s) (is_standing s.stance) (up (points -ℤ cost) ∷ [])
              (λ low. Every-one (IsGood t points s) (up (points -ℤ cost)) (
                raises low refl,
                paid,
                record { named = raised_named s.stance; on_board = safe.on_board },
              )))
            (if_not-Every (IsGood t points s) (is_prone s.stance) (down (points -ℤ cost) ∷ [])
              (λ high. Every-one (IsGood t points s) (down (points -ℤ cost)) (
                lowers high refl,
                paid,
                record { named = lowered_named s.stance; on_board = safe.on_board },
              ))))

  ration_calls_good :
      (points : ℤ) (s : State) → IsSafe t s → AllGood t points s (ration_calls t points s)
  unfolding ration_calls
  ration_calls_good points s safe =
      let cost = t.game.field_ration_eat_cost in
      let eat : ℤ → Candidate = λ points'.
        call (make_action eat_field_ration) (points' +ℤ t.game.field_ration_bonus_action_points)
          (record s { has_field_ration = false; used_field_ration = true }) in
      if-Every (IsGood t points s) s.has_field_ration
        (with_points points cost (λ points'. eat points' ∷ []))
        (λ has.
          with_points-Every (IsGood t points s) points cost (λ points'. eat points' ∷ [])
            (λ paid.
              Every-one (IsGood t points s) (eat (points -ℤ cost))
                (eats has refl, paid, record { named = safe.named; on_board = safe.on_board })))

  -- From a safe state (on the board, prone, kneeling or standing), every candidate is a legal action
  -- that the points pay for and leads to a safe state, and none ends the process.
  pub candidates-IsGood :
      (points : ℤ) (s : State)
      → IsSafe t s
      → (c : Candidate) → Member c (candidates t points s)
      → IsGood t points s c
  unfolding candidates
  candidates-IsGood points s safe =
      Every-append (IsGood t points s) _ _ (medikit_calls_good points s safe) (
        Every-append (IsGood t points s) _ _ (grenade_calls_good points s safe) (
          Every-append (IsGood t points s) _ _ (medic_calls_good points s safe) (
            Every-append (IsGood t points s) _ _ (shoot_calls_good points s safe) (
              Every-append (IsGood t points s) _ _ (move_calls_good points s safe) (
                Every-append (IsGood t points s) _ _ (stance_calls_good points s safe)
                  (ration_calls_good points s safe))))))
