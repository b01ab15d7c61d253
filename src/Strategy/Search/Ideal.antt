-- ===== src/Strategy/Search/Ideal.antt =====
-- The search of maximize_score with the scores given by a function of the state, so that no score can
-- overflow: what the search over the machine's scores is compared with.
use russian_ai_cup.Base.{ℕ, zero, suc, ◌+◌, ℤ, ltb_ℤ, ◌==◌, if◌then◌else◌}
use russian_ai_cup.Strategy.Turn.{Turn, State}
use russian_ai_cup.Strategy.Score.{collect}
use russian_ai_cup.Strategy.Expand.{candidates}
use russian_ai_cup.Strategy.Search.{Tracker, Outcome, done, try_all}

unfoldable pub ideal_evaluate : (State → ℤ) → State → Tracker → Tracker
ideal_evaluate value s tr =
    if ltb_ℤ tr.best_score (value s)
    then record tr { best_action = tr.cur_action; best_score = value s }
    else tr

unfoldable pub ideal_search : Turn → (State → ℤ) → ℕ → ℕ → ℤ → State → Tracker → Outcome
unfolding ideal_evaluate try_all
ideal_search t value zero n points s tr = done (ideal_evaluate value (collect t s) tr)
ideal_search t value (suc left) n points s tr =
    let s' = collect t s in
    try_all (λ points' next. ideal_search t value left (n + 1) points' next) (n + 1 == 1)
      (candidates t points s') (ideal_evaluate value s' tr)
