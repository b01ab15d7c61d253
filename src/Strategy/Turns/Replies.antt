-- ===== src/Strategy/Turns/Replies.antt =====
-- How a turn can end: with an order, by the exit of Trooper::getDamage, or undefined.
use russian_ai_cup.Base.{
  ℕ, zero, suc, ◌+◌, ◌≡◌, refl, ℤ, Bool, true, false, Option, none, some, List, [], ◌∷◌, ◌==◌,
  if◌then◌else◌,
}
use russian_ai_cup.Model.Double.{Fpu}
use russian_ai_cup.Model.Game.{Game}
use russian_ai_cup.Model.Trooper.{Trooper}
use russian_ai_cup.Model.World.{World}
use russian_ai_cup.Strategy.Point.{point_of, is_correct}
use russian_ai_cup.Strategy.Turn.{Turn, State}
use russian_ai_cup.Strategy.Score.{collect}
use russian_ai_cup.Strategy.Score.Machine.{machine_score}
use russian_ai_cup.Strategy.Expand.{Candidate, call, stop, candidates}
use russian_ai_cup.Strategy.Search.{
  Tracker, Outcome, done, exited, overflowed, evaluate, try_all, maximize_score, fresh,
}
use russian_ai_cup.Strategy.Turns.{
  Library, Globals, Reply, ordered, stopped, undefined_reply, still_picking, begin_turn, cover_all,
  pick_target, reset_target, start, turn_of, with_team, reply_of, search_from, run_turn,
}

-- How the search may end, and a turn.
abbrev IsQuick : Outcome → Type 0
IsQuick (done tr) = Unit {0}
IsQuick (exited code) = code ≡ 10030
IsQuick overflowed = Unit {0}

unfoldable pub IsReply : {R : Type 0} → Reply R → Type 0
IsReply (ordered move g) = Unit {0}
IsReply (stopped code) = code ≡ 10030
IsReply undefined_reply = Unit {0}
IsReply still_picking = Unit {0}

next_call :
    (o : Outcome) (rest : Tracker → Outcome)
    → IsQuick o
    → ((tr : Tracker) → IsQuick (rest tr))
    → IsQuick (elim o [ done tr ↦ rest tr | exited code ↦ exited code | overflowed ↦ overflowed ])
next_call (done tr) rest quick next = next tr
next_call (exited code) rest quick next = quick
next_call overflowed rest quick next = tt

try_all-IsQuick :
    (search : ℤ → State → Tracker → Outcome) (first : Bool) (cs : List Candidate) (tr : Tracker)
    → ((points : ℤ) (s : State) (tr : Tracker) → IsQuick (search points s tr))
    → IsQuick (try_all search first cs tr)
unfolding try_all
try_all-IsQuick search first [] tr quick = tt
try_all-IsQuick search first (stop ∷ cs) tr quick = refl
try_all-IsQuick search first (call a points s ∷ cs) tr quick =
    next_call (search points s (if first then record tr { cur_action = a } else tr))
      (λ tr'. try_all search first cs tr') (quick points s _)
      (λ tr'. try_all-IsQuick search first cs tr' quick)

IsQuick-if :
    (o : Option ℤ) (f : ℤ → Tracker)
    → IsQuick (elim o [ some value ↦ done (f value) | none ↦ overflowed ])
IsQuick-if none f = tt
IsQuick-if (some value) f = tt

evaluate-IsQuick : (t : Turn) (s : State) (tr : Tracker) → IsQuick (evaluate t s tr)
unfolding evaluate
evaluate-IsQuick t s tr = IsQuick-if (machine_score t s) _

search-IsQuick :
    (t : Turn) (left n : ℕ) (points : ℤ) (s : State) (tr : Tracker)
    → IsQuick (maximize_score t left n points s tr)
unfolding maximize_score
search-IsQuick t zero n points s tr = evaluate-IsQuick t (collect t s) tr
search-IsQuick t (suc left) n points s tr =
    next_call (evaluate t (collect t s) tr)
      (λ tr'.
        try_all (λ points next. maximize_score t left (n + 1) points next) (n + 1 == 1)
          (candidates t points (collect t s)) tr')
      (evaluate-IsQuick t (collect t s) tr)
      (λ tr'.
        try_all-IsQuick (λ points next. maximize_score t left (n + 1) points next) (n + 1 == 1)
          (candidates t points (collect t s)) tr' (search-IsQuick t left (n + 1)))

module _ {R : Type 0} (lib : Library R) (fpu : Fpu) (picks : ℕ) where
  outcome-IsReply : (g : Globals R) (o : Outcome) → IsQuick o → IsReply (reply_of g o)
  unfolding IsReply
  outcome-IsReply g (done tr) quick = tt
  outcome-IsReply g (exited code) quick = quick
  outcome-IsReply g overflowed quick = tt

  with_team-IsReply :
      (mates : List Trooper) (reply : Reply R) → IsReply reply → IsReply (with_team mates reply)
  unfolding IsReply with_team
  with_team-IsReply [] reply h = tt
  with_team-IsReply (mate ∷ mates) reply h = h

  search_from-IsReply : (t : Turn) (self : Trooper) (g : Globals R) → IsReply (search_from t self g)
  unfolding search_from
  search_from-IsReply t self g =
      with_team-IsReply t.teammates _
        (outcome-IsReply g _ (search-IsQuick t 10 0 self.action_points (start self) fresh))

  reply_if :
      {A : Type 0} (o : Option A) (f : A → Reply R) (r : Reply R)
      → IsReply r
      → ((a : A) → IsReply (f a))
      → IsReply (elim o [ none ↦ r | some a ↦ f a ])
  reply_if none f r hr hf = hr
  reply_if (some a) f r hr hf = hf a

  reply_either :
      (b : Bool) (r r' : Reply R) → IsReply r → IsReply r' → IsReply (if b then r else r')
  reply_either true r r' h h' = h
  reply_either false r r' h h' = h'

  undefined-IsReply : IsReply {R = R} undefined_reply
  unfolding IsReply
  undefined-IsReply = tt

  picking-IsReply : IsReply {R = R} still_picking
  unfolding IsReply
  picking-IsReply = tt

  pub run_turn-IsReply :
      (self : Trooper) (world : World) (game : Game) (g : Globals R)
      → IsReply (run_turn lib fpu picks self world game g)
  unfolding run_turn
  run_turn-IsReply self world game g =
      let (stances, g1) = begin_turn lib world g in
      reply_if (cover_all world.cells world.troopers) _ undefined_reply undefined-IsReply (λ cells.
        reply_either (is_correct g1.size_x g1.size_y (point_of self.unit)) _ undefined_reply
          (reply_if
            (pick_target lib picks (point_of self.unit) (reset_target lib (point_of self.unit) g1))
            _ still_picking picking-IsReply
            (λ g2. search_from-IsReply (turn_of fpu self world game stances cells g2) self g2))
          undefined-IsReply)
