-- ===== src/Strategy/Search.antt =====
-- SlavaStrategy::maximize_score: the search over sequences of at most ten actions.
pub mod Every
pub mod Ideal
pub mod Agree
pub mod Whole
pub mod Growth
pub mod Plans
pub mod Optimal
pub mod Legal
pub mod Bounds
pub mod Returns
pub mod Budget
pub mod Spending
use russian_ai_cup.Base.{
  ℕ, zero, suc, ◌+◌, ℤ, negsuc, ltb_ℤ, Bool, Option, none, some, List, [], ◌∷◌, ◌==◌, if◌then◌else◌,
}
use russian_ai_cup.Model.Move.{Move, new_move, end_turn}
use russian_ai_cup.Strategy.Turn.{Turn, State, make_action}
use russian_ai_cup.Strategy.Score.{collect}
use russian_ai_cup.Strategy.Score.Machine.{machine_score}
use russian_ai_cup.Strategy.Expand.{Candidate, call, stop, candidates}

-- The members that the search writes.
pub record Tracker : Type 0 where
  pub best_action : Move
  pub best_score : ℤ
  pub cur_action : Move

-- The tracker that `run` starts with: best_score = -inf, cur_action = END_TURN, the default move.
abbrev pub fresh : Tracker
fresh = record {
  best_action = new_move;
  best_score = negsuc 999_999_999;
  cur_action = make_action end_turn;
}

-- How a search ends: it returns, or the process exits, or a score overflows an int, which is undefined.
pub data Outcome : Type 0 where
  done : Tracker → Outcome
  exited : ℕ → Outcome
  overflowed : Outcome

-- The score of a state, and `if (score > best_score) { ... }`.
unfoldable pub evaluate : Turn → State → Tracker → Outcome
evaluate t s tr = elim (machine_score t s) [
  | some value ↦ done (
      if ltb_ℤ tr.best_score value
      then record tr { best_action = tr.cur_action; best_score = value }
      else tr)
  | none ↦ overflowed
]

-- The recursive calls in order; at action number 1 each sets `cur_action` first.
unfoldable pub try_all : (ℤ → State → Tracker → Outcome) → Bool → List Candidate → Tracker → Outcome
try_all search first [] tr = done tr
try_all search first (stop ∷ rest) tr = exited 10030
try_all search first (call action points s ∷ rest) tr =
    elim (search points s (if first then record tr { cur_action = action } else tr)) [
      | done tr' ↦ try_all search first rest tr'
      | exited code ↦ exited code
      | overflowed ↦ overflowed
    ]

-- `left` is 11 - action_number after the increment: at 0 the search stops, as at action number 11.
unfoldable pub maximize_score : Turn → ℕ → ℕ → ℤ → State → Tracker → Outcome
unfolding evaluate try_all
maximize_score t zero action_number action_points s tr = evaluate t (collect t s) tr
maximize_score t (suc left) action_number action_points s tr =
    let s' = collect t s in
    elim (evaluate t s' tr) [
      | done tr' ↦
          try_all (λ points next. maximize_score t left (action_number + 1) points next)
            (action_number + 1 == 1) (candidates t action_points s') tr'
      | exited code ↦ exited code
      | overflowed ↦ overflowed
    ]
