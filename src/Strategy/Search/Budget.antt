-- ===== src/Strategy/Search/Budget.antt =====
-- What the actions of a plan cost together.
pub mod Calls
use russian_ai_cup.Base.{
  ℕ, suc, ◌≡◌, refl, sym, ap, subst, ◌∙◌, ◌⊎◌, inl, inr, ℤ, pos, ◌+ℤ◌, ◌-ℤ◌, ◌≤ℤ◌, ltb_ℤ, Bool,
  true, false, not, none, some, List, [], ◌∷◌, ◌++◌, Member, Bool-cases, if◌then◌else◌, arith,
}
use mathlib.Core.List.{foldl}
use russian_ai_cup.Strategy.Turn.{Turn, State, make_action, make_action_to}
use russian_ai_cup.Model.Trooper.{Trooper, prone, kneeling, standing, get_damage}
use russian_ai_cup.Model.Move.{
  Move, ActionType, move, shoot, raise_stance, lower_stance, throw_grenade, use_medikit,
  eat_field_ration, heal,
}
use russian_ai_cup.Strategy.Point.{Point, point_of, has_neigh, neighs, distance_to}
use russian_ai_cup.Model.World.{is_visible}
use russian_ai_cup.Strategy.Floyd.{is_free}
use russian_ai_cup.Strategy.Expand.{
  Candidate, call, stop, for_each, with_points, heal_call, healed, is_field_medic, is_standing,
  is_prone, heal_calls, medikit_calls, explode, grenade_calls, medic_calls, shoot_call, shoot_calls,
  move_cost, move_calls, stance_calls, ration_calls, candidates, hit,
}
use russian_ai_cup.Strategy.Search.Every.{
  Every, Every-one, Every-append, if-Every, for_each-Every, with_points-Every, if_not-Every,
}
use russian_ai_cup.Strategy.Search.Legal.{cost_of}

-- A ration that has been eaten is not at hand.
abbrev pub IsFrugal : State → Type 0
IsFrugal s = s.used_field_ration ≡ true → s.has_field_ration ≡ false

-- The points at hand, and those of the ration that may still be eaten.
abbrev pub wealth : Turn → ℤ → State → ℤ
wealth t points s =
    points +ℤ (if s.used_field_ration then pos 0 else t.game.field_ration_bonus_action_points)

module _ (t : Turn) where
  -- A candidate takes its cost from the wealth, and leaves no debt.
  abbrev pub IsSpent : ℤ → State → Candidate → Type 0
  IsSpent points s (call a points' s') =
      ((wealth t points' s' +ℤ cost_of t s.stance a.action) ≡ wealth t points s)
      × IsFrugal s'
      × (pos 0 ≤ℤ t.game.field_ration_bonus_action_points → pos 0 ≤ℤ points')
  IsSpent points s stop = Unit {0}

  pub sub_add : (a b c : ℤ) → ((a -ℤ b) +ℤ c) +ℤ b ≡ a +ℤ c
  unfolding ◌+ℤ◌ ◌-ℤ◌
  sub_add a b c = ground arith

  pub not_negative : (a b : ℤ) → b ≤ℤ a → pos 0 ≤ℤ (a -ℤ b)
  unfolding ◌-ℤ◌
  not_negative a b h = ground arith

  pub eaten : (a b c : ℤ) → (((a -ℤ b) +ℤ c) +ℤ pos 0) +ℤ b ≡ a +ℤ c
  unfolding ◌+ℤ◌ ◌-ℤ◌
  eaten a b c = ground arith

  pub sum_not_negative : (a b : ℤ) → pos 0 ≤ℤ a → pos 0 ≤ℤ b → pos 0 ≤ℤ (a +ℤ b)
  unfolding ◌+ℤ◌
  sum_not_negative a b h k = ground arith

  pub true_not_false : true ≡ false → ⊥
  true_not_false e = cc

  pub plain :
      (a : Move) (points : ℤ) (s s' : State)
      → s'.used_field_ration ≡ s.used_field_ration
      → s'.has_field_ration ≡ s.has_field_ration
      → IsFrugal s
      → cost_of t s.stance a.action ≤ℤ points
      → IsSpent points s (call a (points -ℤ cost_of t s.stance a.action) s')
  plain a points s s' used has frugal paid = (
    rw used (sub_add points (cost_of t s.stance a.action) _),
    (λ e. has ∙ frugal (sym used ∙ e)),
    (λ _. not_negative points (cost_of t s.stance a.action) paid),
  )

  abbrev pub SameRation : State → State → Type 0
  SameRation s s' =
      (s'.used_field_ration ≡ s.used_field_ration) × (s'.has_field_ration ≡ s.has_field_ration)

  pub foldl_same :
      {A : Type 0} (f : State → A → State)
      → ((s : State) (x : A) → SameRation s (f s x))
      → (xs : List A) (s : State) → SameRation s (foldl f s xs)
  foldl_same f keeps [] s = (refl, refl)
  foldl_same f keeps (x ∷ xs) s =
      let (a, b) = foldl_same f keeps xs (f s x) in let (c, d) = keeps s x in (a ∙ c, b ∙ d)

  pub if_same : (b : Bool) (s s' : State) → SameRation s s' → SameRation s (if b then s' else s)
  if_same true s s' h = h
  if_same false s s' h = (refl, refl)
