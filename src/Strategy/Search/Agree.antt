-- ===== src/Strategy/Search/Agree.antt =====
-- The search over the machine's scores against the search over given scores.
use russian_ai_cup.Base.{
  ℕ, zero, suc, ◌+◌, ◌≡◌, refl, ap, ◌∙◌, ℤ, Bool, some, List, [], ◌∷◌, Member, here, there, ◌==◌,
  if◌then◌else◌,
}
use russian_ai_cup.Model.Move.{Move}
use russian_ai_cup.Strategy.Turn.{Turn, State}
use russian_ai_cup.Strategy.Score.{collect}
use russian_ai_cup.Strategy.Score.Machine.{machine_score}
use russian_ai_cup.Strategy.Expand.{Candidate, call, stop, candidates}
use russian_ai_cup.Strategy.Search.{
  Tracker, Outcome, done, exited, overflowed, evaluate, try_all, maximize_score,
}
use russian_ai_cup.Strategy.Search.Ideal.{ideal_evaluate, ideal_search}
use russian_ai_cup.Strategy.Search.Plans.{Plan, rest, act}

next_same :
    (o : Outcome) (f f' : Tracker → Outcome)
    → ((tr : Tracker) → f tr ≡ f' tr)
    → elim o [ done tr ↦ f tr | exited code ↦ exited code | overflowed ↦ overflowed ]
      ≡ elim o [ done tr ↦ f' tr | exited code ↦ exited code | overflowed ↦ overflowed ]
next_same (done tr) f f' same = same tr
next_same (exited code) f f' same = refl
next_same overflowed f f' same = refl

-- Two searches that agree on the candidates of a list.
try_all-same :
    (search search' : ℤ → State → Tracker → Outcome) (first : Bool) (cs : List Candidate)
    (tr : Tracker)
    → ((a : Move) (points : ℤ) (s : State) (tr : Tracker)
        → Member (call a points s) cs
        → search points s tr ≡ search' points s tr)
    → try_all search first cs tr ≡ try_all search' first cs tr
unfolding try_all
try_all-same search search' first [] tr same = refl
try_all-same search search' first (stop ∷ cs) tr same = refl
try_all-same search search' first (call a points s ∷ cs) tr same =
    let tr0 : Tracker = if first then record tr { cur_action = a } else tr in
    next_same (search points s tr0) (λ tr'. try_all search first cs tr')
      (λ tr'. try_all search' first cs tr')
      (λ tr'. try_all-same search search' first cs tr' (λ a p s tr m. same a p s tr (there m)))
    ∙ ap
        (λ (o : Outcome). elim o [
          | done tr' ↦ try_all search' first cs tr'
          | exited code ↦ exited code
          | overflowed ↦ overflowed
        ])
        (same a points s tr0 here)

module _ (t : Turn) (value : State → ℤ) where
  -- No score of the plans from a state overflows, and `value` gives them.
  abbrev pub Scored : ℕ → ℤ → State → Type 0
  Scored left points s = (e : State) → Plan t left points s e → machine_score t e ≡ some (value e)

  evaluate-ideal :
      (s : State) (tr : Tracker)
      → machine_score t s ≡ some (value s)
      → evaluate t s tr ≡ done (ideal_evaluate value s tr)
  unfolding evaluate ideal_evaluate
  evaluate-ideal s tr h = rw (evaluate, h) refl

  pub maximize_score-ideal :
      (left n : ℕ) (points : ℤ) (s : State) (tr : Tracker)
      → Scored left points s
      → maximize_score t left n points s tr ≡ ideal_search t value left n points s tr
  unfolding maximize_score ideal_search
  maximize_score-ideal zero n points s tr scored =
      evaluate-ideal (collect t s) tr (scored (collect t s) (rest refl))
  maximize_score-ideal (suc left) n points s tr scored =
      let cs = candidates t points (collect t s) in
      ap
        (λ (o : Outcome). elim o [
          | done tr' ↦
              try_all (λ points' next. maximize_score t left (n + 1) points' next) (n + 1 == 1) cs
                tr'
          | exited code ↦ exited code
          | overflowed ↦ overflowed
        ])
        (evaluate-ideal (collect t s) tr (scored (collect t s) (rest refl)))
      ∙ try_all-same (λ points' next. maximize_score t left (n + 1) points' next)
          (λ points' next. ideal_search t value left (n + 1) points' next) (n + 1 == 1) cs
          (ideal_evaluate value (collect t s) tr)
          (λ a points' s' tr' m.
            maximize_score-ideal left (n + 1) points' s' tr' (λ e p. scored e (act m p)))
