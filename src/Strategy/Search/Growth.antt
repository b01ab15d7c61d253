-- ===== src/Strategy/Search/Growth.antt =====
-- How far one candidate of the search moves the damage, the damage to the team and the kills.
use mathlib.Core.List.{foldl}
use russian_ai_cup.Base.{
  ℕ, ◌+◌, ◌*◌, ◌≤◌, ◌≡◌, ℤ, pos, ◌+ℤ◌, ◌-ℤ◌, ltb_ℤ, leb_ℤ, abs, abs-add, abs-sub, Bool, true, false,
  not, List, [], ◌∷◌, length, if◌then◌else◌, arith,
}
use russian_ai_cup.Model.Units.{
  BonusType, unknown_bonus, grenade, medikit, field_ration, unnamed_bonus,
}
use russian_ai_cup.Model.Trooper.{Trooper}
use russian_ai_cup.Strategy.Point.{point_of, eq_point, has_neigh}
use russian_ai_cup.Strategy.Turn.{Turn, State}
use russian_ai_cup.Strategy.Score.{pick_up, collect_one, collect}
use russian_ai_cup.Strategy.Expand.{hit, hit_mate, explode, healed}

-- From `s` to `s'` the damage moves by `d` at most, the damage to the team by `m`, the kills by `k`.
pub record Grown (d m k : ℕ) (s s' : State) : Type 0 where
  pub damage : abs s'.damage ≤ abs s.damage + d
  pub mate_damage : abs s'.mate_damage ≤ abs s.mate_damage + m
  pub kills : abs s'.kills ≤ abs s.kills + k

pub Grown-refl : (d m k : ℕ) (s : State) → Grown d m k s s
Grown-refl d m k s = record { damage = omega arith; mate_damage = omega arith; kills = omega arith }

pub Grown-trans :
    {d m k d' m' k' : ℕ} {s s1 s2 : State}
    → Grown d m k s s1
    → Grown d' m' k' s1 s2
    → Grown (d + d') (m + m') (k + k') s s2
Grown-trans a b = record {
  damage = omega (arith, a.damage, b.damage);
  mate_damage = omega (arith, a.mate_damage, b.mate_damage);
  kills = omega (arith, a.kills, b.kills);
}

pub Grown-le :
    {d m k d' m' k' : ℕ} {s s' : State}
    → d ≤ d'
    → m ≤ m'
    → k ≤ k'
    → Grown d m k s s'
    → Grown d' m' k' s s'
Grown-le hd hm hk a = record {
  damage = omega (arith, a.damage);
  mate_damage = omega (arith, a.mate_damage);
  kills = omega (arith, a.kills);
}

if-Grown :
    {d m k : ℕ} (b : Bool) (s s' : State) → Grown d m k s s' → Grown d m k s (if b then s' else s)
if-Grown true s s' h = h
if-Grown false s s' h = Grown-refl _ _ _ s

foldl-Grown :
    {A : Type 0} (d m k : ℕ) (f : State → A → State)
    → ((s : State) (x : A) → Grown d m k s (f s x))
    → (xs : List A) (s : State)
    → Grown (length xs * d) (length xs * m) (length xs * k) s (foldl f s xs)
foldl-Grown d m k f h [] s = Grown-refl _ _ _ s
foldl-Grown d m k f h (x ∷ xs) s =
    Grown-le (grind arith) (grind arith) (grind arith)
      (Grown-trans (h s x) (foldl-Grown d m k f h xs (f s x)))

killed : (b : Bool) (a c : ℤ) (n : ℕ) → abs a ≤ abs c + n → abs (if b then a else c) ≤ abs c + n
killed true a c n h = h
killed false a c n h = omega arith

pub hit-Grown :
    (t : Turn) (n : ℕ) (damage : ℤ) (enemy : Trooper) (s : State)
    → abs damage ≤ n
    → Grown n 0 1 s (hit t damage enemy s)
hit-Grown t n damage enemy s h = record {
  damage = omega (arith, abs-add s.damage damage);
  mate_damage = omega arith;
  kills =
      killed (leb_ℤ enemy.hitpoints damage) (s.kills +ℤ pos 1) s.kills 1 (abs-add s.kills (pos 1));
}

hit_mate-Grown :
    (t : Turn) (n : ℕ) (damage : ℤ) (mate : Trooper) (s : State)
    → abs damage ≤ n
    → Grown 0 n 2 s (hit_mate t damage mate s)
hit_mate-Grown t n damage mate s h = record {
  damage = omega arith;
  mate_damage = omega (arith, abs-add s.mate_damage damage);
  kills =
      killed (leb_ℤ mate.hitpoints damage) (s.kills -ℤ pos 2) s.kills 2 (abs-sub s.kills (pos 2));
}

-- A grenade: the direct hit, the enemies beside it, the mates beside it.
pub explode-Grown :
    (t : Turn) (n : ℕ) (s : State) (enemy : Trooper)
    → abs t.game.grenade_direct_damage ≤ n
    → abs t.game.grenade_collateral_damage ≤ n
    → Grown
        (n + length t.enemies * n)
        (length t.teammates * n)
        (1 + length t.enemies + length t.teammates * 2)
        s
        (explode t s enemy)
unfolding explode
explode-Grown t n s enemy direct collateral =
    let a = hit-Grown t n t.game.grenade_direct_damage enemy s direct in
    let b =
      foldl-Grown n 0 1 _
        (λ s' x.
          if-Grown (has_neigh t.size_x t.size_y (point_of enemy.unit) (point_of x.unit)) s' _
            (hit-Grown t n t.game.grenade_collateral_damage x s' collateral))
        t.enemies _ in
    let c =
      foldl-Grown 0 n 2 _
        (λ s' x.
          if-Grown (has_neigh t.size_x t.size_y (point_of enemy.unit) (point_of x.unit)) s' _
            (hit_mate-Grown t n t.game.grenade_collateral_damage x s' collateral))
        t.teammates _ in
    let whole = Grown-trans (Grown-trans a b) c in
    let bounded : Grown (n + length t.enemies * n) (length t.teammates * n)
        (1 + length t.enemies + length t.teammates * 2) s _ =
      Grown-le (omega arith) (omega arith) (omega arith) whole in
    record { damage = bounded.damage; mate_damage = bounded.mate_damage; kills = bounded.kills }

pick_up-Grown : (b : BonusType) (s : State) → Grown 0 0 0 s (pick_up b s)
unfolding pick_up
pick_up-Grown medikit s = record {
  damage = omega arith;
  mate_damage = omega arith;
  kills = omega arith;
}
pick_up-Grown field_ration s =
    if-Grown (not s.used_field_ration) s (record s { has_field_ration = true })
      (record { damage = omega arith; mate_damage = omega arith; kills = omega arith })
pick_up-Grown grenade s =
    if-Grown (not s.used_grenade) s (record s { has_grenade = true })
      (record { damage = omega arith; mate_damage = omega arith; kills = omega arith })
pick_up-Grown unknown_bonus s = Grown-refl 0 0 0 s
pick_up-Grown (unnamed_bonus n) s = Grown-refl 0 0 0 s

pub collect-Grown : (t : Turn) (s : State) → Grown 0 0 0 s (collect t s)
unfolding collect collect_one
collect-Grown t s = Grown-le (omega arith) (omega arith) (omega arith) (
    foldl-Grown 0 0 0 collect_one
      (λ s b.
        if-Grown (eq_point s.pos (point_of b.unit)) s (pick_up b.type s) (pick_up-Grown b.type s))
      t.world.bonuses s)

pub healed-le :
    (bonus : ℤ) (mate : Trooper)
    → ltb_ℤ (pos 0) (healed bonus mate) ≡ true
    → abs (healed bonus mate) ≤ abs bonus
unfolding ◌-ℤ◌
healed-le bonus mate h = ground arith
