-- ===== src/Strategy/Search/Plans.antt =====
-- The search against its specification: a plan is a sequence of candidates, and the search finds the
-- best plan and its first action.
use russian_ai_cup.Base.{
  ℕ, suc, ◌≡◌, refl, sym, subst, ◌∙◌, ◌⊎◌, inl, inr, ℤ, ◌≤ℤ◌, ltb_ℤ, Bool, true, false, List, [],
  ◌∷◌, Member, here, there, not-Member-nil, Bool-cases, if◌then◌else◌, arith,
}
use russian_ai_cup.Model.Move.{Move}
use russian_ai_cup.Strategy.Turn.{Turn, State}
use russian_ai_cup.Strategy.Score.{collect}
use russian_ai_cup.Strategy.Expand.{Candidate, call, stop, candidates}
use russian_ai_cup.Strategy.Search.{Tracker, Outcome, done, exited, overflowed, try_all}
use russian_ai_cup.Strategy.Search.Ideal.{ideal_evaluate}

module _ (t : Turn) where
  -- A sequence of at most `left` actions from a state with so many points, and where it ends (after the
  -- bonuses there are picked up).
  pub data Plan : ℕ → ℤ → State → State → Type 0 where
    rest : {left : ℕ} {points : ℤ} {s e : State} → e ≡ collect t s → Plan left points s e
    act :
        {left : ℕ} {points points' : ℤ} {s s' e : State} {a : Move}
        → Member (call a points' s') (candidates t points (collect t s))
        → Plan left points' s' e
        → Plan (suc left) points s e

module _ (value : State → ℤ) where
  -- What a search does to the tracker: `Ends a e` says that it visits the state `e`, on account of the
  -- first action `a`.
  pub record Explored (Ends : Move → State → Type 0) (tr tr' : Tracker) : Type 0 where
    pub rises : tr.best_score ≤ℤ tr'.best_score
    pub covers : (a : Move) (e : State) → Ends a e → value e ≤ℤ tr'.best_score
    pub source :
        ((tr'.best_score ≡ tr.best_score) × (tr'.best_action ≡ tr.best_action))
        ⊎ ((e : State) × Ends tr'.best_action e × (value e ≡ tr'.best_score))

  pub ideal_evaluate-Explored :
      (s : State) (tr : Tracker)
      → Explored (λ a e. (a ≡ tr.cur_action) × (e ≡ s)) tr (ideal_evaluate value s tr)
  unfolding ideal_evaluate
  ideal_evaluate-Explored s tr = elim (Bool-cases (ltb_ℤ tr.best_score (value s))) [
    | inl better ↦
        rw (ideal_evaluate, better)
          (record {
            rises = ground arith;
            covers = λ a e h. rw (h.1) (omega arith);
            source = inr (s, (refl, refl), refl);
          })
    | inr worse ↦
        rw (ideal_evaluate, worse)
          (record {
            rises = omega arith;
            covers = λ a e h. rw (h.1) (ground arith);
            source = inl (refl, refl);
          })
  ]

  pub ideal_evaluate-current :
      (s : State) (tr : Tracker) → (ideal_evaluate value s tr).cur_action ≡ tr.cur_action
  unfolding ideal_evaluate
  ideal_evaluate-current s tr = ground arith

  -- Two explorations, one after the other.
  pub Explored-both :
      (P Q R : Move → State → Type 0) {tr tr1 tr2 : Tracker}
      → ((a : Move) (e : State) → P a e → R a e)
      → ((a : Move) (e : State) → Q a e → R a e)
      → ((a : Move) (e : State) → R a e → P a e ⊎ Q a e)
      → Explored P tr tr1
      → Explored Q tr1 tr2
      → Explored R tr tr2
  Explored-both P Q R {tr} {tr1} {tr2} pr qr cases first second = record {
    rises = omega (arith, first.rises, second.rises);
    covers = λ a e r. elim (cases a e r) [
      | inl h ↦ omega (arith, first.covers a e h, second.rises)
      | inr h ↦ second.covers a e h
    ];
    source = elim second.source [
      | inr (e, q, v) ↦ inr (e, qr tr2.best_action e q, v)
      | inl (v, w) ↦ elim first.source [
        | inl (v', w') ↦ inl (v ∙ v', w ∙ w')
        | inr (e, h, v') ↦ inr (e, pr tr2.best_action e (subst (λ a. P a e) (sym w) h), v' ∙ sym v)
      ]
    ];
  }

module _ (t : Turn) where
  -- The ends of the plans that begin with a candidate of `cs`. At the first level the plan counts for
  -- its first action, below it for the current one.
  pub data Branch (left : ℕ) (first : Bool) (cur : Move) (cs : List Candidate) (a : Move)
      (e : State) : Type 0 where
    branch :
        (a' : Move) (points : ℤ) (s : State)
        → a ≡ (if first then a' else cur)
        → Member (call a' points s) cs
        → Plan t left points s e
        → Branch left first cur cs a e

  Branch-there :
      {left : ℕ} {first : Bool} {cur a : Move} {c : Candidate} {cs : List Candidate} {e : State}
      → Branch left first cur cs a e
      → Branch left first cur (c ∷ cs) a e
  Branch-there (branch a' points s h m p) = branch a' points s h (there m) p

  Branch-cases :
      {left : ℕ} {first : Bool} {cur a b : Move} {points : ℤ} {s e : State} {cs : List Candidate}
      → Branch left first cur (call b points s ∷ cs) a e
      → ((a ≡ (if first then b else cur)) × Plan t left points s e) ⊎ Branch left first cur cs a e
  Branch-cases (branch a' points' s' h here p) = inl (h, p)
  Branch-cases (branch a' points' s' h (there m) p) = inr (branch a' points' s' h m p)

module _ (t : Turn) (value : State → ℤ) where
  -- A search of the plans of `left` actions.
  abbrev pub Searches : ℕ → (ℤ → State → Tracker → Outcome) → Type 0
  Searches left search =
      (points : ℤ) (s : State) (tr tr' : Tracker)
      → search points s tr ≡ done tr'
      → Explored value (λ a e. (a ≡ tr.cur_action) × Plan t left points s e) tr tr'
        × (tr'.cur_action ≡ tr.cur_action)

  -- `cur_action` and the two records of the best are apart.
  abbrev started : Bool → Move → Tracker → Tracker
  started first a tr = if first then record tr { cur_action = a } else tr

  Explored-started :
      (Ends : Move → State → Type 0) (first : Bool) (a : Move) (tr tr' : Tracker)
      → Explored value Ends (started first a tr) tr'
      → Explored value Ends tr tr'
  Explored-started Ends true a tr tr' h = record {
    rises = h.rises;
    covers = h.covers;
    source = h.source;
  }
  Explored-started Ends false a tr tr' h = h

  started-current :
      (first : Bool) (a cur : Move) (tr : Tracker)
      → (first ≡ false → tr.cur_action ≡ cur)
      → (started first a tr).cur_action ≡ (if first then a else cur)
  started-current true a cur tr same = refl
  started-current false a cur tr same = same refl

  Outcome-cases :
      (o : Outcome)
      → ((tr : Tracker) × (o ≡ done tr)) ⊎ (((n : ℕ) × (o ≡ exited n)) ⊎ (o ≡ overflowed))
  Outcome-cases (done tr) = inl (tr, refl)
  Outcome-cases (exited n) = inr (inl (n, refl))
  Outcome-cases overflowed = inr (inr refl)

  kept_current :
      (first : Bool) (a cur : Move) (tr tr1 : Tracker)
      → (first ≡ false → tr.cur_action ≡ cur)
      → tr1.cur_action ≡ (started first a tr).cur_action
      → first ≡ false
      → tr1.cur_action ≡ cur
  kept_current true a cur tr tr1 same k e = absurd (cc)
  kept_current false a cur tr tr1 same k e = k ∙ same e

  -- `try_all` explores every candidate's plans.
  pub try_all-Explored :
      (left : ℕ) (search : ℤ → State → Tracker → Outcome) (first : Bool) (cur : Move)
      (cs : List Candidate) (tr tr' : Tracker)
      → Searches left search
      → (first ≡ false → tr.cur_action ≡ cur)
      → try_all search first cs tr ≡ done tr'
      → Explored value (Branch t left first cur cs) tr tr' × (first ≡ false → tr'.cur_action ≡ cur)
  unfolding try_all
  try_all-Explored left search first cur [] tr tr' inner same h =
      let e : tr ≡ tr' = cc in
      subst
        (λ x.
          Explored value (Branch t left first cur []) tr x × (first ≡ false → x.cur_action ≡ cur))
        e
        (
          record {
            rises = omega arith;
            covers = λ a e b. absurd (no_branch b);
            source = inl (refl, refl);
          },
          same,
        )
    where
      no_branch : {a : Move} {e : State} → Branch t left first cur [] a e → ⊥
      no_branch (branch a' points s h m p) = not-Member-nil m
  try_all-Explored left search first cur (stop ∷ cs) tr tr' inner same h = absurd (cc)
  try_all-Explored left search first cur (call a points s ∷ cs) tr tr' inner same h =
      elim (Outcome-cases (search points s (started first a tr))) [
        | inr (inl (n, e)) ↦ absurd (ended n e)
        | inr (inr e) ↦ absurd (lost e)
        | inl (tr1, e) ↦
            let (explored, current) = inner points s (started first a tr) tr1 e in
            let (later, kept) =
              try_all-Explored left search first cur cs tr1 tr' inner
                (kept_current first a cur tr tr1 same current) (continued tr1 e) in
            (
              Explored-both value (λ b e. (b ≡ (if first then a else cur)) × Plan t left points s e)
                  (Branch t left first cur cs) (Branch t left first cur (call a points s ∷ cs))
                  (λ b e h. branch a points s h.0 here h.1) (λ b e h. Branch-there t h)
                  (λ b e h. Branch-cases t h)
                  (Explored-started _ first a tr tr1
                    (rw (started-current first a cur tr same) at explored))
                  later,
              kept,
            )
      ]
    where
      ended : (n : ℕ) → search points s (started first a tr) ≡ exited n → ⊥
      ended n e = ground arith

      lost : search points s (started first a tr) ≡ overflowed → ⊥
      lost e = ground arith

      continued :
          (tr1 : Tracker)
          → search points s (started first a tr) ≡ done tr1
          → try_all search first cs tr1 ≡ done tr'
      continued tr1 e = ground arith
