-- ===== src/Strategy/Search/Legal/Tools.antt =====
-- What keeps a state safe: the bonuses, a grenade, the damage of a named stance.
use russian_ai_cup.Base.{
  ◌≡◌, refl, ◌∙◌, inl, inr, ℤ, Bool, true, false, some, List, [], ◌∷◌, Bool-cases, if◌then◌else◌,
  arith,
}
use mathlib.Core.List.{foldl}
use russian_ai_cup.Model.Units.{
  Bonus, BonusType, unknown_bonus, grenade, medikit, field_ration, unnamed_bonus,
}
use russian_ai_cup.Model.Trooper.{Trooper, TrooperStance, prone, kneeling, standing, get_damage}
use russian_ai_cup.Strategy.Point.{point_of, eq_point}
use russian_ai_cup.Strategy.Turn.{Turn, State}
use russian_ai_cup.Strategy.Score.{pick_up, collect_one, collect}
use russian_ai_cup.Strategy.Expand.{explode}
use russian_ai_cup.Strategy.Search.Legal.{is_named, IsSafe}

pick_up-keeps :
    (b : BonusType) (s : State) → ((pick_up b s).pos ≡ s.pos) × ((pick_up b s).stance ≡ s.stance)
unfolding pick_up
pick_up-keeps medikit s = (refl, refl)
pick_up-keeps field_ration s = ground arith
pick_up-keeps grenade s = ground arith
pick_up-keeps unknown_bonus s = (refl, refl)
pick_up-keeps (unnamed_bonus n) s = (refl, refl)

collect_one-keeps :
    (s : State) (b : Bonus)
    → ((collect_one s b).pos ≡ s.pos) × ((collect_one s b).stance ≡ s.stance)
unfolding collect_one
collect_one-keeps s b = elim (Bool-cases (eq_point s.pos (point_of b.unit))) [
  | inl e ↦ rw (collect_one, e) (pick_up-keeps b.type s)
  | inr e ↦ rw (collect_one, e) (refl, refl)
]

module _ (t : Turn) where
  -- A fold that keeps the place and the stance.
  foldl_keeps :
      {A : Type 0} (f : State → A → State)
      → ((s : State) (x : A) → ((f s x).pos ≡ s.pos) × ((f s x).stance ≡ s.stance))
      → (xs : List A) (s : State)
      → ((foldl f s xs).pos ≡ s.pos) × ((foldl f s xs).stance ≡ s.stance)
  foldl_keeps f keeps [] s = (refl, refl)
  foldl_keeps f keeps (x ∷ xs) s =
      let (a, b) = foldl_keeps f keeps xs (f s x) in let (c, d) = keeps s x in (a ∙ c, b ∙ d)

  kept-IsSafe :
      (s s' : State) → IsSafe t s → (s'.pos ≡ s.pos) × (s'.stance ≡ s.stance) → IsSafe t s'
  kept-IsSafe s s' safe (p, q) = record {
    named = rw q (safe.named);
    on_board = rw p (safe.on_board);
  }

  if_keeps :
      (b : Bool) (s s' : State)
      → (s'.pos ≡ s.pos) × (s'.stance ≡ s.stance)
      → ((if b then s' else s).pos ≡ s.pos) × ((if b then s' else s).stance ≡ s.stance)
  if_keeps true s s' h = h
  if_keeps false s s' h = (refl, refl)

  pub explode-IsSafe : (s : State) (enemy : Trooper) → IsSafe t s → IsSafe t (explode t s enemy)
  unfolding explode
  explode-IsSafe s enemy safe =
      let (a, b) = foldl_keeps _ (λ s' n. if_keeps _ s' _ (refl, refl)) t.enemies _ in
      let (c, d) = foldl_keeps _ (λ s' n. if_keeps _ s' _ (refl, refl)) t.teammates _ in
      kept-IsSafe s _ safe (c ∙ a, d ∙ b)

  pub get_damage-is_named :
      (stance : TrooperStance)
      → is_named stance ≡ true
      → (n : ℤ) × (get_damage t.self stance ≡ some n)
  unfolding get_damage
  get_damage-is_named prone h = (t.self.prone_damage, refl)
  get_damage-is_named kneeling h = (t.self.kneeling_damage, refl)
  get_damage-is_named standing h = (t.self.standing_damage, refl)
  get_damage-is_named _ h = absurd (cc)

  collect-keeps : (s : State) → ((collect t s).pos ≡ s.pos) × ((collect t s).stance ≡ s.stance)
  unfolding collect collect_one
  collect-keeps s = foldl_keeps collect_one collect_one-keeps t.world.bonuses s

  pub collect-IsSafe : (s : State) → IsSafe t s → IsSafe t (collect t s)
  collect-IsSafe s safe = kept-IsSafe s (collect t s) safe (collect-keeps s)
