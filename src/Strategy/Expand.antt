-- ===== src/Strategy/Expand.antt =====
-- The second half of SlavaStrategy::maximize_score: the actions that it tries from a state, in order.
-- Each block of the source is a function that lists its recursive calls: the action, the points left
-- and the new state.
use mathlib.Core.List.{foldl}
use russian_ai_cup.Base.{
  ℤ, pos, ◌+ℤ◌, ◌-ℤ◌, min_ℤ, leb_ℤ, ltb_ℤ, Bool, true, false, not, none, some, List, [], ◌∷◌, ◌++◌,
  if◌then◌else◌,
}
use russian_ai_cup.Model.Trooper.{
  Trooper, TrooperType, TrooperStance, field_medic, prone, kneeling, standing, get_damage,
}
use russian_ai_cup.Model.Move.{
  Move, ActionType, move, shoot, raise_stance, lower_stance, throw_grenade, use_medikit,
  eat_field_ration, heal,
}
use russian_ai_cup.Model.World.{is_visible}
use russian_ai_cup.Model.Game.Methods.{
  get_field_medic_heal_bonus_hitpoints, get_field_medic_heal_cost,
  get_field_medic_heal_self_bonus_hitpoints, get_field_ration_bonus_action_points,
  get_field_ration_eat_cost, get_grenade_collateral_damage, get_grenade_direct_damage,
  get_grenade_throw_cost, get_grenade_throw_range, get_kneeling_move_cost,
  get_medikit_bonus_hitpoints, get_medikit_heal_self_bonus_hitpoints, get_medikit_use_cost,
  get_prone_move_cost, get_stance_change_cost, get_standing_move_cost,
}
use russian_ai_cup.Model.Trooper.Methods.{
  get_hitpoints, get_maximal_hitpoints, get_shoot_cost, get_shooting_range, get_stance, get_type,
}
use russian_ai_cup.Strategy.Point.{point_of, has_neigh, neighs, distance_to}
use russian_ai_cup.Strategy.Floyd.{is_free}
use russian_ai_cup.Strategy.Turn.{Turn, State, make_action, make_action_to}

-- A recursive call, or the `exit(10030)` of Trooper::getDamage.
pub data Candidate : Type 0 where
  call : Move → ℤ → State → Candidate
  stop : Candidate

-- `for (auto& a : xs) { ... }`, where the body makes calls.
unfoldable pub for_each : {A : Type 0} → List A → (A → List Candidate) → List Candidate
for_each [] body = []
for_each (x ∷ xs) body = body x ++ for_each xs body

-- `int points = action_points - cost; if (points >= 0) { ... }`
unfoldable pub with_points : ℤ → ℤ → (ℤ → List Candidate) → List Candidate
with_points action_points cost body =
    if leb_ℤ (pos 0) (action_points -ℤ cost) then body (action_points -ℤ cost) else []

-- The hit points that a kit of strength `bonus` gives to a trooper.
abbrev pub healed : ℤ → Trooper → ℤ
healed bonus mate = min_ℤ bonus ((get_maximal_hitpoints mate) -ℤ (get_hitpoints mate))

-- `if (heal > 0) { ... }`; `used` is the state after the kit is gone.
unfoldable pub heal_call : ActionType → ℤ → Trooper → ℤ → State → List Candidate
heal_call action bonus mate points used =
    if ltb_ℤ (pos 0) (healed bonus mate)
    then call (make_action_to action (point_of mate.unit)) points
        (record used { mate_damage = used.mate_damage -ℤ healed bonus mate })
      ∷ []
    else []

abbrev pub is_field_medic : TrooperType → Bool
is_field_medic field_medic = true
is_field_medic _ = false

abbrev pub is_standing : TrooperStance → Bool
is_standing standing = true
is_standing _ = false

abbrev pub is_kneeling : TrooperStance → Bool
is_kneeling kneeling = true
is_kneeling _ = false

abbrev pub is_prone : TrooperStance → Bool
is_prone prone = true
is_prone _ = false

module _ (t : Turn) where
  open t use {game, self, teammates, enemies, fpu, world}

  -- The mates beside the state's position, then the trooper itself.
  unfoldable pub heal_calls : ActionType → ℤ → ℤ → State → State → ℤ → List Candidate
  unfolding for_each heal_call
  heal_calls action bonus self_bonus s used points =
      for_each teammates (λ mate.
        if has_neigh t.size_x t.size_y s.pos (point_of mate.unit)
        then heal_call action bonus mate points used
        else [])
      ++ heal_call action self_bonus self points used

  unfoldable pub medikit_calls : ℤ → State → List Candidate
  unfolding with_points heal_calls
  medikit_calls action_points s =
      if s.has_medkit
      then with_points action_points (get_medikit_use_cost game) (
          heal_calls use_medikit (get_medikit_bonus_hitpoints game)
            (get_medikit_heal_self_bonus_hitpoints game) s (record s { has_medkit = false }))
      else []

  -- Damage to one enemy, which counts as a kill if it takes all hit points.
  abbrev pub hit : ℤ → Trooper → State → State
  hit damage enemy s = record s {
    damage = s.damage +ℤ damage;
    kills = if leb_ℤ (get_hitpoints enemy) damage then s.kills +ℤ pos 1 else s.kills;
  }

  abbrev pub hit_mate : ℤ → Trooper → State → State
  hit_mate damage mate s = record s {
    mate_damage = s.mate_damage +ℤ damage;
    kills = if leb_ℤ (get_hitpoints mate) damage then s.kills -ℤ pos 2 else s.kills;
  }

  -- The state after a grenade at `e`: the direct hit, then what stands beside it.
  unfoldable pub explode : State → Trooper → State
  explode s enemy =
      let e = point_of enemy.unit in
      let direct = hit (get_grenade_direct_damage game) enemy s in
      let splashed =
        foldl
          (λ (s' : State) n.
            if has_neigh t.size_x t.size_y e (point_of n.unit)
            then hit (get_grenade_collateral_damage game) n s'
            else s')
          direct enemies in
      let burnt =
        foldl
          (λ (s' : State) n.
            if has_neigh t.size_x t.size_y e (point_of n.unit)
            then hit_mate (get_grenade_collateral_damage game) n s'
            else s')
          splashed teammates in
      record burnt { has_grenade = false; used_grenade = true }

  unfoldable pub grenade_calls : ℤ → State → List Candidate
  unfolding with_points for_each explode
  grenade_calls action_points s =
      if s.has_grenade
      then with_points action_points (get_grenade_throw_cost game) (λ points.
        for_each enemies (λ enemy.
          if fpu.le (distance_to fpu s.pos (point_of enemy.unit)) (get_grenade_throw_range game)
          then call (make_action_to throw_grenade (point_of enemy.unit)) points (explode s enemy)
            ∷ []
          else []))
      else []

  unfoldable pub medic_calls : ℤ → State → List Candidate
  unfolding with_points heal_calls
  medic_calls action_points s =
      if is_field_medic (get_type self)
      then with_points action_points (get_field_medic_heal_cost game) (
          heal_calls heal (get_field_medic_heal_bonus_hitpoints game)
            (get_field_medic_heal_self_bonus_hitpoints game) s s)
      else []

  unfoldable pub shoot_call : State → ℤ → Trooper → List Candidate
  shoot_call s points enemy = elim (get_damage self s.stance) [
    | some damage ↦
        call (make_action_to shoot (point_of enemy.unit)) points (hit damage enemy s) ∷ []
    | none ↦ stop ∷ []
  ]

  unfoldable pub shoot_calls : ℤ → State → List Candidate
  unfolding with_points for_each shoot_call
  shoot_calls action_points s = with_points action_points (get_shoot_cost self) (λ points.
      for_each enemies (λ enemy.
        if is_visible fpu world (get_shooting_range self) s.pos.x s.pos.y s.stance enemy.x enemy.y
          (get_stance enemy)
        then shoot_call s points enemy
        else []))

  abbrev pub move_cost : TrooperStance → ℤ
  move_cost stance =
      if is_standing stance
      then (get_standing_move_cost game)
      else if is_kneeling stance
      then (get_kneeling_move_cost game)
      else (get_prone_move_cost game)

  unfoldable pub move_calls : ℤ → State → List Candidate
  unfolding with_points for_each
  move_calls action_points s = with_points action_points (move_cost s.stance) (λ points.
      for_each (neighs t.size_x t.size_y s.pos) (λ n.
        if is_free t.cells n
        then call (make_action_to move n) points (record s { pos = n }) ∷ []
        else []))

  unfoldable pub stance_calls : ℤ → State → List Candidate
  unfolding with_points
  stance_calls action_points s = with_points action_points (get_stance_change_cost game) (λ points.
      (if not (is_standing s.stance)
        then call (make_action raise_stance) points
            (record s { stance = if is_prone s.stance then kneeling else standing })
          ∷ []
        else [])
      ++ (if not (is_prone s.stance)
          then call (make_action lower_stance) points
              (record s { stance = if is_standing s.stance then kneeling else prone })
            ∷ []
          else []))

  unfoldable pub ration_calls : ℤ → State → List Candidate
  unfolding with_points
  ration_calls action_points s =
      if s.has_field_ration
      then with_points action_points (get_field_ration_eat_cost game) (λ points.
        call (make_action eat_field_ration) (points +ℤ (get_field_ration_bonus_action_points game))
          (record s { has_field_ration = false; used_field_ration = true })
        ∷ [])
      else []

  unfoldable pub candidates : ℤ → State → List Candidate
  candidates action_points s =
      medikit_calls action_points s
      ++ (grenade_calls action_points s
          ++ (medic_calls action_points s
              ++ (shoot_calls action_points s
                  ++ (move_calls action_points s
                      ++ (stance_calls action_points s ++ ration_calls action_points s)))))
