-- ===== src/Strategy/Search/Optimal.antt =====
-- The whole search: it returns, and finds the best plan.
use russian_ai_cup.Base.{
  ℕ, zero, suc, ◌+◌, ◌≡◌, refl, subst, ◌⊎◌, inl, inr, ℤ, Bool, true, false, ◌==◌, arith,
}
use russian_ai_cup.Model.Move.{Move}
use russian_ai_cup.Strategy.Turn.{Turn, State}
use russian_ai_cup.Strategy.Score.{collect}
use russian_ai_cup.Strategy.Expand.{candidates}
use russian_ai_cup.Strategy.Search.{Tracker, done}
use russian_ai_cup.Strategy.Search.Ideal.{ideal_evaluate, ideal_search}
use russian_ai_cup.Strategy.Search.Plans.{
  Plan, rest, act, Explored, ideal_evaluate-Explored, ideal_evaluate-current, Explored-both, Branch,
  branch, Searches, try_all-Explored,
}

module _ (t : Turn) where
  -- The plans from a state, with the action that each counts for: the current one if it does nothing.
  abbrev pub Rooted : ℕ → Bool → Move → ℤ → State → Move → State → Type 0
  Rooted left first cur points s a e =
      ((a ≡ cur) × (e ≡ collect t s))
      ⊎ Branch t left first cur (candidates t points (collect t s)) a e

module _ (t : Turn) (value : State → ℤ) where
  -- One level of the search, over the level below.
  level-Explored :
      (left n : ℕ) (first : Bool) (points : ℤ) (s : State) (tr tr' : Tracker)
      → (n + 1 == 1) ≡ first
      → Searches t value left (λ points next. ideal_search t value left (n + 1) points next)
      → ideal_search t value (suc left) n points s tr ≡ done tr'
      → Explored value (Rooted t left first tr.cur_action points s) tr tr'
        × (first ≡ false → tr'.cur_action ≡ tr.cur_action)
  unfolding ideal_search
  level-Explored left n first points s tr tr' test inner h =
      let tr1 = ideal_evaluate value (collect t s) tr in
      let cs = candidates t points (collect t s) in
      let (later, kept) =
        try_all-Explored t value left (λ points next. ideal_search t value left (n + 1) points next)
          first tr.cur_action cs tr1 tr' inner (λ _. ideal_evaluate-current value (collect t s) tr)
          (rw test at h) in
      (
        Explored-both value (λ a e. (a ≡ tr.cur_action) × (e ≡ collect t s))
            (Branch t left first tr.cur_action cs) (Rooted t left first tr.cur_action points s)
            (λ a e h. inl h) (λ a e h. inr h) (λ a e h. h)
            (ideal_evaluate-Explored value (collect t s) tr) later,
        kept,
      )

  Explored-map :
      (P Q : Move → State → Type 0) {tr tr' : Tracker}
      → ((a : Move) (e : State) → P a e → Q a e)
      → ((a : Move) (e : State) → Q a e → P a e)
      → Explored value P tr tr'
      → Explored value Q tr tr'
  Explored-map P Q {tr' = tr'} to from h = record {
    rises = h.rises;
    covers = λ a e q. h.covers a e (from a e q);
    source = elim h.source [
      | inl same ↦ inl same
      | inr (e, p, v) ↦ inr (e, to tr'.best_action e p, v)
    ];
  }

  to_Plan :
      (left : ℕ) (cur : Move) (points : ℤ) (s : State) (a : Move) (e : State)
      → Rooted t left false cur points s a e
      → (a ≡ cur) × Plan t (suc left) points s e
  to_Plan left cur points s a e (inl (h, k)) = (h, rest k)
  to_Plan left cur points s a e (inr (branch a' points' s' h m p)) = (h, act m p)

  of_Plan :
      (left : ℕ) (cur : Move) (points : ℤ) (s : State) (a : Move) (e : State)
      → (a ≡ cur) × Plan t (suc left) points s e
      → Rooted t left false cur points s a e
  of_Plan left cur points s a e (h, rest k) = inl (h, k)
  of_Plan left cur points s a e (h, act m p) = inr (branch _ _ _ h m p)

  zero-Plan :
      (cur : Move) (points : ℤ) (s : State) (a : Move) (e : State)
      → (a ≡ cur) × (e ≡ collect t s)
      → (a ≡ cur) × Plan t 0 points s e
  zero-Plan cur points s a e (h, k) = (h, rest k)

  of_zero-Plan :
      (cur : Move) (points : ℤ) (s : State) (a : Move) (e : State)
      → (a ≡ cur) × Plan t 0 points s e
      → (a ≡ cur) × (e ≡ collect t s)
  of_zero-Plan cur points s a e (h, rest k) = (h, k)

  -- Below the first level.
  deep-Explored :
      (left k : ℕ)
      → Searches t value left (λ points next. ideal_search t value left (suc k) points next)
  unfolding ideal_search
  deep-Explored zero k points s tr tr' h =
      let e : ideal_evaluate value (collect t s) tr ≡ tr' = cc in
      subst
        (λ x.
          Explored value (λ a e. (a ≡ tr.cur_action) × Plan t 0 points s e) tr x
          × (x.cur_action ≡ tr.cur_action))
        e
        (
          Explored-map (λ a e. (a ≡ tr.cur_action) × (e ≡ collect t s))
              (λ a e. (a ≡ tr.cur_action) × Plan t 0 points s e) (zero-Plan tr.cur_action points s)
              (of_zero-Plan tr.cur_action points s)
              (ideal_evaluate-Explored value (collect t s) tr),
          ideal_evaluate-current value (collect t s) tr,
        )
  deep-Explored (suc left) k points s tr tr' h =
      let inner = deep-Explored left (suc k) in
      let (explored, kept) =
        level-Explored left (suc k) false points s tr tr' (ground arith)
          (subst
            (λ n. Searches t value left (λ points next. ideal_search t value left n points next))
            (omega arith) inner)
          h in
      (
        Explored-map (Rooted t left false tr.cur_action points s)
            (λ a e. (a ≡ tr.cur_action) × Plan t (suc left) points s e)
            (to_Plan left tr.cur_action points s) (of_Plan left tr.cur_action points s) explored,
        kept refl,
      )

  -- The search over given scores explores every plan of at most ten actions: if it returns, the best
  -- score has not fallen, no plan scores more, and the best action either is the old one with its
  -- score, or begins a plan with exactly the best score (the current action, if that plan is empty).
  pub search-Explored :
      (points : ℤ) (s : State) (tr tr' : Tracker)
      → ideal_search t value 10 0 points s tr ≡ done tr'
      → Explored value (Rooted t 9 true tr.cur_action points s) tr tr'
  search-Explored points s tr tr' h =
      (level-Explored 9 0 true points s tr tr' refl (deep-Explored 9 0) h).0
