-- ===== src/Strategy/Search/Legal.antt =====
-- What a candidate of the search has to respect: a legal action that the points pay for, and a next
-- state that the search can go on from.
pub mod Tools
pub mod Calls
use russian_ai_cup.Strategy.Search.Every.{Every}
use russian_ai_cup.Base.{
  ◌≡◌, refl, ◌∙◌, ◌⊎◌, inl, inr, ℤ, pos, ◌+ℤ◌, ◌-ℤ◌, ◌≤ℤ◌, leb_ℤ, ltb_ℤ, Bool, true, false, not,
  some, List, [], ◌∷◌, ◌++◌, Member, here, there, Bool-cases, if◌then◌else◌, arith,
}
use mathlib.Core.List.{foldl}
use russian_ai_cup.Model.Units.{
  Bonus, BonusType, unknown_bonus, grenade, medikit, field_ration, unnamed_bonus,
}
use russian_ai_cup.Model.Trooper.{Trooper, TrooperStance, prone, kneeling, standing, get_damage}
use russian_ai_cup.Model.Move.{
  Move, ActionType, end_turn, move, shoot, raise_stance, lower_stance, throw_grenade, use_medikit,
  eat_field_ration, heal,
}
use russian_ai_cup.Strategy.Point.{
  Point, point_of, has_neigh, neighs, is_correct, eq_point, distance_to,
}
use russian_ai_cup.Model.World.{is_visible}
use russian_ai_cup.Strategy.Point.Neighs.{neighs_iff, has_neigh-IsCorrect}
use russian_ai_cup.Strategy.Floyd.{is_free}
use russian_ai_cup.Strategy.Turn.{Turn, State, make_action, make_action_to}
use russian_ai_cup.Strategy.Score.{pick_up, collect_one, collect}
use russian_ai_cup.Strategy.Expand.{
  Candidate, call, stop, for_each, with_points, heal_call, healed, is_field_medic, is_standing,
  is_prone, heal_calls, medikit_calls, explode, grenade_calls, medic_calls, shoot_call, shoot_calls,
  move_cost, move_calls, stance_calls, ration_calls, candidates, hit,
}

-- One of PRONE, KNEELING and STANDING.
abbrev pub is_named : TrooperStance → Bool
is_named prone = true
is_named kneeling = true
is_named standing = true
is_named _ = false

module _ (t : Turn) where
  -- On the board, in a stance that has a damage.
  pub record IsSafe (s : State) : Type 0 where
    pub named : is_named s.stance ≡ true
    pub on_board : is_correct t.size_x t.size_y s.pos ≡ true

  -- The action points that the game asks for an action in a stance.
  abbrev pub cost_of : TrooperStance → ActionType → ℤ
  cost_of stance move = move_cost t stance
  cost_of stance shoot = t.self.shoot_cost
  cost_of stance raise_stance = t.game.stance_change_cost
  cost_of stance lower_stance = t.game.stance_change_cost
  cost_of stance throw_grenade = t.game.grenade_throw_cost
  cost_of stance use_medikit = t.game.medikit_use_cost
  cost_of stance eat_field_ration = t.game.field_ration_eat_cost
  cost_of stance heal = t.game.field_medic_heal_cost
  cost_of stance _ = pos 0

  -- What the rules of the game ask of an action that is ordered at a state.
  pub data IsLegal (s : State) (a : Move) : Type 0 where
    rests : a ≡ make_action end_turn → IsLegal s a
    walks :
        (n : Point)
        → has_neigh t.size_x t.size_y s.pos n ≡ true
        → is_free t.cells n ≡ true
        → a ≡ make_action_to move n
        → IsLegal s a
    shoots :
        (e : Trooper)
        → Member e t.enemies
        → is_visible t.fpu t.world t.self.shooting_range s.pos.x s.pos.y s.stance e.x e.y e.stance
          ≡ true
        → a ≡ make_action_to shoot (point_of e.unit)
        → IsLegal s a
    throws :
        (e : Trooper)
        → Member e t.enemies
        → s.has_grenade ≡ true
        → t.fpu.le (distance_to t.fpu s.pos (point_of e.unit)) t.game.grenade_throw_range ≡ true
        → a ≡ make_action_to throw_grenade (point_of e.unit)
        → IsLegal s a
    raises : is_standing s.stance ≡ false → a ≡ make_action raise_stance → IsLegal s a
    lowers : is_prone s.stance ≡ false → a ≡ make_action lower_stance → IsLegal s a
    eats : s.has_field_ration ≡ true → a ≡ make_action eat_field_ration → IsLegal s a
    treats :
        (mate : Trooper)
        → (mate ≡ t.self)
          ⊎ (Member mate t.teammates
              × (has_neigh t.size_x t.size_y s.pos (point_of mate.unit) ≡ true))
        → ((a.action ≡ use_medikit) × (s.has_medkit ≡ true))
          ⊎ ((a.action ≡ heal) × (is_field_medic t.self.type ≡ true))
        → a ≡ make_action_to a.action (point_of mate.unit)
        → IsLegal s a

  abbrev pub IsGood : ℤ → State → Candidate → Type 0
  IsGood points s (call a points' s') =
      IsLegal s a × (cost_of s.stance a.action ≤ℤ points) × IsSafe s'
  IsGood points s stop = ⊥

  abbrev pub AllGood : ℤ → State → List Candidate → Type 0
  AllGood points s cs = Every (IsGood points s) cs
