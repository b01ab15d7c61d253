-- ===== src/Strategy/Search/Returns.antt =====
-- The search returns, its plans stay on the board, and what it returns is optimal and legal.
use russian_ai_cup.Base.{
  ℕ, zero, suc, ◌+◌, ◌≡◌, refl, ◌∙◌, inl, inr, ℤ, pos, ◌≤ℤ◌, Bool, true, List, [], ◌∷◌, Member,
  here, there, some, ◌==◌, if◌then◌else◌, arith,
}
use russian_ai_cup.Model.Move.{Move, end_turn}
use russian_ai_cup.Strategy.Turn.{Turn, State, make_action}
use russian_ai_cup.Strategy.Score.{collect}
use russian_ai_cup.Strategy.Expand.{Candidate, call, stop, candidates}
use russian_ai_cup.Strategy.Score.Machine.{machine_score}
use russian_ai_cup.Strategy.Search.{Tracker, Outcome, done, try_all, maximize_score, fresh}
use russian_ai_cup.Strategy.Search.Ideal.{ideal_evaluate, ideal_search}
use russian_ai_cup.Strategy.Search.Agree.{maximize_score-ideal}
use russian_ai_cup.Strategy.Search.Plans.{Plan, rest, act, Explored, branch}
use russian_ai_cup.Strategy.Search.Optimal.{Rooted, search-Explored}
use russian_ai_cup.Strategy.Search.Whole.{IsWhole}
use russian_ai_cup.Strategy.Search.Legal.{IsSafe, IsLegal, rests, IsGood, cost_of}
use russian_ai_cup.Strategy.Search.Legal.Calls.{candidates-IsGood}
use russian_ai_cup.Strategy.Search.Legal.Tools.{collect-IsSafe}

module _ (t : Turn) where
  abbrev Returns : (ℤ → State → Tracker → Outcome) → Type 0
  Returns search =
      (points : ℤ) (s : State) (tr : Tracker)
      → IsSafe t s
      → (tr' : Tracker) × (search points s tr ≡ done tr')

  try_all-Returns :
      (search : ℤ → State → Tracker → Outcome) (first : Bool) (cs : List Candidate) (points : ℤ)
      (s : State) (tr : Tracker)
      → Returns search
      → ((c : Candidate) → Member c cs → IsGood t points s c)
      → (tr' : Tracker) × (try_all search first cs tr ≡ done tr')
  unfolding try_all
  try_all-Returns search first [] points s tr inner good = (tr, refl)
  try_all-Returns search first (stop ∷ cs) points s tr inner good = absurd (good stop here)
  try_all-Returns search first (call a points' s' ∷ cs) points s tr inner good =
      let (_, _, safe) = good (call a points' s') here in
      let tr0 : Tracker = if first then record tr { cur_action = a } else tr in
      let (tr1, e) = inner points' s' tr0 safe in
      let (tr2, f) = try_all-Returns search first cs points s tr1 inner (λ c m. good c (there m)) in
      (tr2, continued tr1 tr2 e f)
    where
      continued :
          (tr1 tr2 : Tracker)
          → search points' s' (if first then record tr { cur_action = a } else tr) ≡ done tr1
          → try_all search first cs tr1 ≡ done tr2
          → try_all search first (call a points' s' ∷ cs) tr ≡ done tr2
      continued tr1 tr2 e f = ground arith

  -- Every state at the end of a plan from a safe state (on the board, prone, kneeling or standing)
  -- is safe.
  pub Plan-IsSafe :
      (left : ℕ) (points : ℤ) (s e : State) → IsSafe t s → Plan t left points s e → IsSafe t e
  Plan-IsSafe left points s e safe (rest same) = rw same (collect-IsSafe t s safe)
  Plan-IsSafe (suc left) points s e safe (act {points' = points'} {s' = s'} {a = a} m p) =
      let (_, _, next) =
        candidates-IsGood t points (collect t s) (collect-IsSafe t s safe) (call a points' s') m in
      Plan-IsSafe left points' s' e next p

  Rooted-IsLegal :
      (points : ℤ) (s : State) (a : Move) (e : State)
      → IsSafe t s
      → pos 0 ≤ℤ points
      → Rooted t 9 true (make_action end_turn) points s a e
      → IsLegal t (collect t s) a × (cost_of t (collect t s).stance a.action ≤ℤ points)
  Rooted-IsLegal points s a e safe points_left (inl (h, _)) = (rests h, rw h points_left)
  Rooted-IsLegal points s a e safe points_left (inr (branch a' points' s' h m _)) =
      let (legal, paid, _) =
        candidates-IsGood t points (collect t s) (collect-IsSafe t s safe) (call a' points' s') m in
      rw h (legal, paid)

module _ (t : Turn) (value : State → ℤ) where
  -- From a safe state the search over given scores returns: no `exit` of Trooper::getDamage is met.
  ideal_search-done :
      (left n : ℕ) → Returns t (λ points s tr. ideal_search t value left n points s tr)
  unfolding ideal_search
  ideal_search-done zero n points s tr safe = (ideal_evaluate value (collect t s) tr, refl)
  ideal_search-done (suc left) n points s tr safe =
      try_all-Returns t (λ points next. ideal_search t value left (n + 1) points next) (n + 1 == 1)
        (candidates t points (collect t s)) points (collect t s)
        (ideal_evaluate value (collect t s) tr) (ideal_search-done left (n + 1))
        (candidates-IsGood t points (collect t s) (collect-IsSafe t s safe))

  pub search_optimal :
      (points : ℤ) (s : State) (tr : Tracker)
      → IsWhole t
      → IsSafe t s
      → ((e : State) → Plan t 10 points s e → machine_score t e ≡ some (value e))
      → (tr' : Tracker) × (maximize_score t 10 0 points s tr ≡ done tr')
        × Explored value (Rooted t 9 true tr.cur_action points s) tr tr'
  search_optimal points s tr _ safe scored =
      let (tr', e) = ideal_search-done 10 0 points s tr safe in
      (
        tr',
        maximize_score-ideal t value 10 0 points s tr scored ∙ e,
        search-Explored t value points s tr tr' e,
      )

  -- From a position on the board in a named stance and with no debt of action points, the best action
  -- over the plans is legal at the state after picking up what lies there, and the trooper can pay for
  -- it.
  pub Explored-IsLegal :
      (points : ℤ) (s : State) (tr' : Tracker)
      → IsSafe t s
      → pos 0 ≤ℤ points
      → Explored value (Rooted t 9 true (make_action end_turn) points s) fresh tr'
      → IsLegal t (collect t s) tr'.best_action
        × (cost_of t (collect t s).stance tr'.best_action.action ≤ℤ points)
  Explored-IsLegal points s tr' safe points_left explored = elim explored.source [
    | inl (_, same) ↦ (rests same, rw same points_left)
    | inr (e, plan, _) ↦ Rooted-IsLegal t points s tr'.best_action e safe points_left plan
  ]
