-- ===== src/Strategy/Search/Spending.antt =====
-- The action points that a whole plan of the search spends.
use russian_ai_cup.Base.{
  ℕ, ◌≡◌, refl, sym, ap, ◌∙◌, ℤ, pos, ◌+ℤ◌, ◌≤ℤ◌, Bool, true, false, not, List, [], ◌∷◌,
  if◌then◌else◌, arith,
}
use mathlib.Core.List.{foldl}
use russian_ai_cup.Model.Units.{
  Bonus, BonusType, unknown_bonus, grenade, medikit, field_ration, unnamed_bonus,
}
use russian_ai_cup.Strategy.Point.{point_of, eq_point}
use russian_ai_cup.Strategy.Turn.{Turn, State}
use russian_ai_cup.Strategy.Score.{pick_up, collect_one, collect}
use russian_ai_cup.Strategy.Search.Plans.{Plan, rest, act}
use russian_ai_cup.Strategy.Search.Legal.{cost_of}
use russian_ai_cup.Strategy.Search.Budget.{IsFrugal, wealth}
use russian_ai_cup.Strategy.Search.Budget.Calls.{candidates_spent}

-- Picking up leaves the mark of the ration that was eaten, and brings none after it.
abbrev StaysFrugal : State → State → Type 0
StaysFrugal s s' = (s'.used_field_ration ≡ s.used_field_ration) × (IsFrugal s → IsFrugal s')

ration-StaysFrugal :
    (s : State) (eaten : Bool)
    → s.used_field_ration ≡ eaten
    → StaysFrugal s (if not eaten then record s { has_field_ration = true } else s)
ration-StaysFrugal s true e = (refl, λ h. h)
ration-StaysFrugal s false e = (refl, λ h k. absurd (clash (sym k ∙ e)))
  where
    clash : true ≡ false → ⊥
    clash k = cc

if-StaysFrugal : (b : Bool) (s s' : State) → StaysFrugal s s' → StaysFrugal s (if b then s' else s)
if-StaysFrugal true s s' h = h
if-StaysFrugal false s s' h = (refl, λ f. f)

pick_up-StaysFrugal : (b : BonusType) (s : State) → StaysFrugal s (pick_up b s)
unfolding pick_up
pick_up-StaysFrugal medikit s = (refl, λ h. h)
pick_up-StaysFrugal field_ration s = ration-StaysFrugal s s.used_field_ration refl
pick_up-StaysFrugal grenade s =
    if-StaysFrugal (not s.used_grenade) s (record s { has_grenade = true }) (refl, λ h. h)
pick_up-StaysFrugal unknown_bonus s = (refl, λ h. h)
pick_up-StaysFrugal (unnamed_bonus n) s = (refl, λ h. h)

collect_all : (bonuses : List Bonus) (s : State) → StaysFrugal s (foldl collect_one s bonuses)
unfolding collect_one
collect_all [] s = (refl, λ h. h)
collect_all (b ∷ bonuses) s =
    let (same, frugal) =
      if-StaysFrugal (eq_point s.pos (point_of b.unit)) s (pick_up b.type s)
        (pick_up-StaysFrugal b.type s) in
    let (same', frugal') = collect_all bonuses (collect_one s b) in
    (same' ∙ same, λ h. frugal' (frugal h))

module _ (t : Turn) where
  collect-StaysFrugal : (s : State) → StaysFrugal s (collect t s)
  unfolding collect
  collect-StaysFrugal s = collect_all t.world.bonuses s

  -- What the actions of a plan cost, each in the stance that it is taken in.
  unfoldable pub plan_cost : {left : ℕ} {points : ℤ} {s e : State} → Plan t left points s e → ℤ
  plan_cost (rest e) = pos 0
  plan_cost (act {s = s} {a = a} m plan) = cost_of t (collect t s).stance a.action +ℤ plan_cost plan

  wealth_not_negative :
      (points : ℤ) (s : State)
      → pos 0 ≤ℤ points
      → pos 0 ≤ℤ t.game.field_ration_bonus_action_points
      → pos 0 ≤ℤ wealth t points s
  unfolding ◌+ℤ◌
  wealth_not_negative points s h k = ground arith

  add_cost : (c p w v : ℤ) → p ≤ℤ w → (w +ℤ c) ≡ v → (c +ℤ p) ≤ℤ v
  unfolding ◌+ℤ◌
  add_cost c p w v h e = rw (sym e) (ground arith)

  -- In a plan that starts with no debt of action points, and with no ration that is both eaten and at
  -- hand, if a ration does not take points away: the actions cost together at most the action points
  -- at the start and those of one ration, or at most the action points if a ration has been eaten
  -- before.
  pub Plan-cost :
      {left : ℕ} {points : ℤ} {s e : State} (plan : Plan t left points s e)
      → IsFrugal s
      → pos 0 ≤ℤ points
      → pos 0 ≤ℤ t.game.field_ration_bonus_action_points
      → plan_cost plan ≤ℤ (
          points
          +ℤ (if s.used_field_ration then pos 0 else t.game.field_ration_bonus_action_points))
  unfolding plan_cost
  Plan-cost {points = points} {s = s} (rest e) frugal some bonus =
      wealth_not_negative points s some bonus
  Plan-cost {points = points} {s = s} (act {points' = points'} {s' = s'} {a = a} m plan) frugal some
        bonus =
      let (same, stays) = collect-StaysFrugal s in
      let (spent, frugal', some') = candidates_spent t points (collect t s) (stays frugal) _ m in
      add_cost (cost_of t (collect t s).stance a.action) (plan_cost plan) (wealth t points' s')
        (wealth t points s) (Plan-cost plan frugal' (some' bonus) bonus)
        (spent
          ∙ ap (λ b. points +ℤ (if b then pos 0 else t.game.field_ration_bonus_action_points)) same)
