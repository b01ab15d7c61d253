-- ===== src/Strategy/Score/Overflow.antt =====
-- Where the machine's score is undefined: a teammate out of reach.
use russian_ai_cup.Base.{
  ℕ, zero, suc, ◌+◌, ◌*◌, ◌^◌, ◌≤◌, ◌≡◌, refl, ap, ◌∙◌, ◌⊎◌, inl, inr, ℤ, pos, pos-mul, pos-add,
  Option, none, some, List, [], ◌∷◌, Member, here, there, length, arith,
}
use native.Mathlib.Decide.{dec_lt}
use russian_ai_cup.Model.Trooper.{Trooper}
use russian_ai_cup.Strategy.Point.{point_of}
use russian_ai_cup.Strategy.Floyd.{inf}
use russian_ai_cup.Strategy.Turn.{Turn, State, min_distance}
use russian_ai_cup.Strategy.Score.{mates_distance}
use russian_ai_cup.Strategy.Score.Machine.{
  ◌>>=◌, checked, sub_share, sub_target, add_commander, add_distances, score_before_mates,
  score_from_mates, machine_score,
}
use russian_ai_cup.Strategy.Score.Small.{bind-some, checked-eq}

bind-none :
    {A B : Type 0} (o : Option A) {f : A → Option B} → ((a : A) → f a ≡ none) → (o >>= f) ≡ none
unfolding ◌>>=◌
bind-none none h = refl
bind-none (some a) h = h a

checked-none : (n : ℕ) → 2 ^ 31 ≤ n → checked (pos n) ≡ none
unfolding checked
checked-none n h = ground arith

checked_cases : (n : ℕ) → (checked (pos n) ≡ none) ⊎ (checked (pos n) ≡ some (pos n))
checked_cases n = elim (dec_lt n (2 ^ 31)) [
  | yes h ↦ inr (checked-eq (pos n) (omega arith))
  | no h ↦ inl (checked-none n (omega arith))
]

sub_share-none : (m size : ℕ) (score : ℤ) → 2 ^ 31 ≤ 60 * m → sub_share 60 (pos m) size score ≡ none
unfolding sub_share ◌>>=◌
sub_share-none m zero score h = refl
sub_share-none m (suc size) score h = rw (sub_share, pos-mul 60 m, checked-none (60 * m) h) refl

module _ (t : Turn) (s : State) where
  add_distances-cases :
      (mates : List Trooper) (from : ℕ)
      → (add_distances t s mates (pos from) ≡ none)
        ⊎ (add_distances t s mates (pos from) ≡ some (pos (from + mates_distance t s mates)))
  unfolding add_distances mates_distance ◌>>=◌
  add_distances-cases [] from = inr (ap (λ (n : ℕ). some (pos n)) (omega arith))
  add_distances-cases (mate ∷ mates) from =
      let d : ℕ = min_distance t.floyd_dist s.pos (point_of mate.unit) in
      elim (checked_cases (from + d)) [
        | inl e ↦ inl (
            ap (λ (o : Option ℤ). o >>= λ sum. add_distances t s mates sum)
              (ap checked (pos-add from d) ∙ e))
        | inr e ↦
            let step : add_distances t s (mate ∷ mates) (pos from)
                ≡ add_distances t s mates (pos (from + d)) =
              bind-some _ (ap checked (pos-add from d) ∙ e) in
            elim (add_distances-cases mates (from + d)) [
              | inl broken ↦ inl (step ∙ broken)
              | inr sum ↦ inr (step ∙ sum ∙ ap (λ (n : ℕ). some (pos n)) (omega arith))
            ]
      ]

  mates_distance-Member :
      (mate : Trooper) (mates : List Trooper)
      → Member mate mates
      → min_distance t.floyd_dist s.pos (point_of mate.unit) ≤ mates_distance t s mates
  unfolding mates_distance
  mates_distance-Member mate [] m = elim m [ ]
  mates_distance-Member mate (_ ∷ mates) here = omega arith
  mates_distance-Member mate (_ ∷ mates) (there m) =
      omega (arith, mates_distance-Member mate mates m)

  from_mates_none :
      (x : ℤ)
      → inf ≤ mates_distance t s t.teammates
      → score_from_mates t s (pos (0 + mates_distance t s t.teammates)) x ≡ none
  unfolding score_from_mates ◌>>=◌
  from_mates_none x much =
      ap (λ (o : Option ℤ). o >>= λ s8. sub_target t s s8 >>= λ s9. add_commander t s s9)
        (sub_share-none (0 + mates_distance t s t.teammates) (length t.teammates) x (omega arith))

  -- If a teammate cannot be reached from the state's position, an int overflows in the score, which
  -- C++ leaves undefined.
  pub machine_score-none :
      (mate : Trooper)
      → Member mate t.teammates
      → t.floyd_dist s.pos (point_of mate.unit) ≡ inf
      → machine_score t s ≡ none
  unfolding machine_score ◌>>=◌
  machine_score-none mate m far =
      let much : inf ≤ mates_distance t s t.teammates =
        omega (arith, mates_distance-Member mate t.teammates m) in
      elim (add_distances-cases t.teammates 0) [
        | inl e ↦
            ap
              (λ (o : Option ℤ).
                o >>= λ d. score_before_mates t s >>= λ x. score_from_mates t s d x)
              e
        | inr e ↦
            bind-some (λ d. score_before_mates t s >>= λ x. score_from_mates t s d x) e
            ∙ bind-none (score_before_mates t s) (λ x. from_mates_none x much)
      ]
