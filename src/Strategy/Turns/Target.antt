-- ===== src/Strategy/Turns/Target.antt =====
-- The loop of SlavaStrategy::run that picks a target: what it ends with, when it ends, and when not.
use russian_ai_cup.Base.{
  ℕ, zero, suc, ◌≤◌, ◌<◌, ◌≡◌, refl, sym, ap, subst, ◌∙◌, ◌||◌, inl, inr, true, false, none, some,
  leb, ◌%◌, ◌*◌, ℤ, pos, pos_part, abs, Bool, ◌==◌, if◌then◌else◌, Bool-cases, arith,
}
use russian_ai_cup.Strategy.Point.{Point, is_correct}
use russian_ai_cup.Strategy.Floyd.{inf}
use russian_ai_cup.Strategy.Turns.{
  Library, Globals, random_point, is_stale, pick_target, reset_target,
}

module _ {R : Type 0} (lib : Library R) where
  -- The state of `rand` after `n` calls.
  abbrev pub state_after : ℕ → R → R
  state_after zero r = r
  state_after (suc n) r = state_after n (lib.rand r).1

  -- The point that two numbers stand for on a board of this size: the first is for the column where
  -- the compiler computes the first argument first, and for the row where it does not.
  abbrev pub point_at : ℤ → ℤ → ℕ → ℕ → Point
  point_at size_x size_y first second = record {
    x = pos ((if lib.x_first then first else second) % pos_part size_x);
    y = pos ((if lib.x_first then second else first) % pos_part size_y);
  }

  -- The targets one after the other: the current one, then those of the numbers 0 and 1 that `rand`
  -- gives, of the numbers 2 and 3, and so on.
  abbrev pub drawn : Globals R → ℕ → Point
  drawn g zero = g.target
  drawn g (suc m) =
      point_at g.size_x g.size_y (lib.rand (state_after (2 * m) g.rng)).0
        (lib.rand (state_after (suc (2 * m)) g.rng)).0

module _ {R : Type 0} (lib : Library R) (self : Point) where
  -- One round of the loop: a new target.
  abbrev pub redraw : Globals R → Globals R
  redraw g = let (point, r) = random_point lib g in record g { target = point; rng = r }

  twice : (n : ℕ) (r : R) → state_after lib (2 * suc n) r ≡ state_after lib (suc (suc (2 * n))) r
  twice n r = let e : 2 * suc n ≡ suc (suc (2 * n)) = omega arith in ap (λ k. state_after lib k r) e

  twice_suc :
      (n : ℕ) (r : R)
      → state_after lib (suc (2 * suc n)) r ≡ state_after lib (suc (suc (suc (2 * n)))) r
  twice_suc n r =
      let e : suc (2 * suc n) ≡ suc (suc (suc (2 * n))) = omega arith in
      ap (λ k. state_after lib k r) e

  random_point-drawn : (g : Globals R) → (random_point lib g).0 ≡ drawn lib g 1
  unfolding random_point
  random_point-drawn g = elim (Bool-cases lib.x_first) [ inl e ↦ rw e refl | inr e ↦ rw e refl ]

  random_point-state : (g : Globals R) → (random_point lib g).1 ≡ state_after lib 2 g.rng
  unfolding random_point
  random_point-state g = refl

  redraw-state :
      (n : ℕ) (g : Globals R)
      → state_after lib (2 * n) (redraw g).rng ≡ state_after lib (2 * suc n) g.rng
  redraw-state n g = ap (state_after lib (2 * n)) (random_point-state g) ∙ sym (twice n g.rng)

  redraw-drawn : (m : ℕ) (g : Globals R) → drawn lib (redraw g) m ≡ drawn lib g (suc m)
  redraw-drawn zero g = random_point-drawn g
  redraw-drawn (suc m) g =
      ap
        (λ (r : R).
          point_at lib g.size_x g.size_y (lib.rand (state_after lib (2 * m) r)).0
            (lib.rand (state_after lib (suc (2 * m)) r)).0)
        (random_point-state g)
      ∙ ap
          (λ (r : R).
            point_at lib g.size_x g.size_y (lib.rand r).0
              (lib.rand (state_after lib (suc (suc (suc (2 * m)))) g.rng)).0)
          (sym (twice m g.rng))
      ∙ ap
          (λ (r : R).
            point_at lib g.size_x g.size_y (lib.rand (state_after lib (2 * suc m) g.rng)).0
              (lib.rand r).0)
          (sym (twice_suc m g.rng))

  pick_target-stale :
      (fuel : ℕ) (g : Globals R)
      → is_stale lib g self ≡ true
      → pick_target lib (suc fuel) self g ≡ pick_target lib fuel self (redraw g)
  unfolding pick_target
  pick_target-stale fuel g h = ground arith

  pick_target-settled :
      (fuel : ℕ) (g : Globals R)
      → is_stale lib g self ≡ false
      → pick_target lib fuel self g ≡ some g
  unfolding pick_target
  pick_target-settled zero g h = ground arith
  pick_target-settled (suc fuel) g h = ground arith

  is_stale-at :
      (g : Globals R) (q : Point) (b : Bool)
      → g.target ≡ q
      → (leb (g.floyd_dist self q) 5 || g.floyd_dist self q == inf) ≡ b
      → is_stale lib g self ≡ b
  unfolding is_stale
  is_stale-at g q b e h =
      subst (λ p. (leb (g.floyd_dist self p) 5 || g.floyd_dist self p == inf) ≡ b) (sym e) h

  pick_target-drawn :
      (n fuel : ℕ) (g : Globals R)
      → ((m : ℕ)
          → m < n
          → (leb (g.floyd_dist self (drawn lib g m)) 5 || g.floyd_dist self (drawn lib g m) == inf)
            ≡ true)
      → (leb (g.floyd_dist self (drawn lib g n)) 5 || g.floyd_dist self (drawn lib g n) == inf)
        ≡ false
      → n ≤ fuel
      → pick_target lib fuel self g
        ≡ some (record g { target = drawn lib g n; rng = state_after lib (2 * n) g.rng })
  pick_target-drawn zero fuel g before now h =
      pick_target-settled fuel g (is_stale-at g g.target false refl now)
  pick_target-drawn (suc n) zero g before now h = absurd (omega arith)
  pick_target-drawn (suc n) (suc fuel) g before now h =
      pick_target-stale fuel g (is_stale-at g g.target true refl (before 0 (omega arith)))
      ∙ pick_target-drawn n fuel (redraw g)
          (λ m k.
            subst (λ q. (leb (g.floyd_dist self q) 5 || g.floyd_dist self q == inf) ≡ true)
              (sym (redraw-drawn m g)) (before (suc m) (omega (arith, k))))
          (subst (λ q. (leb (g.floyd_dist self q) 5 || g.floyd_dist self q == inf) ≡ false)
            (sym (redraw-drawn n g)) now)
          (omega arith)
      ∙ ap (λ q. some (record g { target = q; rng = state_after lib (2 * n) (redraw g).rng }))
          (redraw-drawn n g)
      ∙ ap (λ r. some (record g { target = drawn lib g (suc n); rng = r })) (redraw-state n g)

  -- On a board with the trooper and the current target on it, let the targets be this one, then the
  -- points that the numbers of `rand` give, two for each, the remainders by the width and by the
  -- height. If the first `n` of them are at most five steps away or out of reach, and the next is
  -- neither, then `n` rounds of fuel or more give that one; `rand` has been called twice in each
  -- round, and nothing else changes.
  pub pick_target-first :
      (n fuel : ℕ) (g : Globals R)
      → is_correct g.size_x g.size_y self ≡ true
      → is_correct g.size_x g.size_y g.target ≡ true
      → ((m : ℕ)
          → m < n
          → (leb (g.floyd_dist self (drawn lib g m)) 5 || g.floyd_dist self (drawn lib g m) == inf)
            ≡ true)
      → (leb (g.floyd_dist self (drawn lib g n)) 5 || g.floyd_dist self (drawn lib g n) == inf)
        ≡ false
      → n ≤ fuel
      → pick_target lib fuel self g
        ≡ some (record g { target = drawn lib g n; rng = state_after lib (2 * n) g.rng })
  pick_target-first n fuel g _ _ before now h = pick_target-drawn n fuel g before now h

  all_stale :
      (g : Globals R)
      → ((q : Point) → (leb (g.floyd_dist self q) 5 || g.floyd_dist self q == inf) ≡ true)
      → is_stale lib g self ≡ true
  unfolding is_stale
  all_stale g h = h g.target

  -- If every point is at most five steps from the trooper or out of its reach, then the loop never
  -- ends, whatever `rand` gives.
  pub pick_target-never :
      (fuel : ℕ) (g : Globals R)
      → ((q : Point) → (leb (g.floyd_dist self q) 5 || g.floyd_dist self q == inf) ≡ true)
      → pick_target lib fuel self g ≡ none
  unfolding pick_target
  pick_target-never zero g h = let e = all_stale g h in ground arith
  pick_target-never (suc fuel) g h =
      pick_target-stale fuel g (all_stale g h) ∙ pick_target-never fuel (redraw g) h

  abbrev pub SameBoard : Globals R → Globals R → Type 0
  SameBoard g g' =
      (g'.size_x ≡ g.size_x)
      × (g'.size_y ≡ g.size_y)
      × (g'.floyd_dist ≡ g.floyd_dist)
      × (g'.move_index ≡ g.move_index)

  same_of_some : {g g' : Globals R} → some g ≡ some g' → SameBoard g g'
  same_of_some {g} {g'} e =
      let h : g' ≡ g = cc in
      (
        ap (λ x. x.size_x) h,
        ap (λ x. x.size_y) h,
        ap (λ x. x.floyd_dist) h,
        ap (λ x. x.move_index) h,
      )

  settled_keeps :
      (g g' : Globals R)
      → some g ≡ some g'
      → is_stale lib g self ≡ false
      → SameBoard g g' × (is_stale lib g' self ≡ false)
  settled_keeps g g' e settled =
      let h : g ≡ g' = cc in (same_of_some e, subst (λ x. is_stale lib x self ≡ false) h settled)

  -- The loop changes neither the sizes nor the distances nor the number of the turn, and ends with a target that is not stale.
  pub pick_target-keeps :
      (fuel : ℕ) (g g' : Globals R)
      → pick_target lib fuel self g ≡ some g'
      → SameBoard g g' × (is_stale lib g' self ≡ false)
  unfolding pick_target
  pick_target-keeps zero g g' h = elim (Bool-cases (is_stale lib g self)) [
    | inr settled ↦ settled_keeps g g' (sym (pick_target-settled 0 g settled) ∙ h) settled
    | inl stale ↦ absurd (ground arith)
  ]
  pick_target-keeps (suc fuel) g g' h = elim (Bool-cases (is_stale lib g self)) [
    | inr settled ↦ settled_keeps g g' (sym (pick_target-settled (suc fuel) g settled) ∙ h) settled
    | inl stale ↦ pick_target-keeps fuel (redraw g) g' (sym (pick_target-stale fuel g stale) ∙ h)
  ]

  pub reset_target-keeps : (g : Globals R) → SameBoard g (reset_target lib self g)
  unfolding reset_target
  reset_target-keeps g = elim (Bool-cases (abs g.move_index % 128 == 0)) [
    | inl e ↦ rw (reset_target, e) (refl, refl, refl, refl)
    | inr e ↦ rw (reset_target, e) (refl, refl, refl, refl)
  ]
