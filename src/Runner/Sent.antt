-- ===== src/Runner/Sent.antt =====
-- What a run of the program has sent: all that it means to send, or a part of it, where the connection
-- breaks.
use russian_ai_cup.Base.{ℕ, ◌≡◌, sym, ap, subst, ◌∙◌, List, [], ◌∷◌, ◌++◌, append-nil, append_assoc}
use russian_ai_cup.Client.Monad.{Platform, Client, Caches, Action, Result, ok, exit}
use russian_ai_cup.Client.Stream.{IsStream}
use russian_ai_cup.Client.Takes.{Takes}
use russian_ai_cup.Client.Output.{IsOpen, Writes, all_sent, broke_off}
use russian_ai_cup.Runner.{Run, ended, after}

module _ {S R : Type 0} where
  pub after-ok :
      {A : Type 0} {r : Result A × Client S} {a : A} {c : Client S}
      → (next : A → Client S → Run S R) → r ≡ (ok a, c)
      → after r next ≡ next a c
  unfolding after
  after-ok next e = ap (λ r. after r next) e

  pub after-exit :
      {A : Type 0} {r : Result A × Client S} {code : ℕ} {c : Client S}
      → (next : A → Client S → Run S R) → r ≡ (exit code, c)
      → after r next ≡ ended code c
  unfolding after
  after-exit next e = ap (λ r. after r next) e

module _ {S R : Type 0} {p : Platform S} (net : IsStream p) where
  open net use {incoming, outgoing}

  -- From the socket `s`, the run comes to `r`: it has sent `xs` and what it has come to is as
  -- `Done` says of it and of the socket then; or Send has failed, the process has ended by
  -- exit(10013), and a proper prefix of `xs` has gone out.
  pub data Sent (Done : Run S R → S → Type 0) (xs : List ℕ) (s : S) (r : Run S R) : Type 0 where
    all_out : (s' : S) → Done r s' → outgoing s' ≡ outgoing s ++ xs → Sent Done xs s r
    cut_short :
        (c : Client S) (front : List ℕ) (x : ℕ) (back : List ℕ)
        → r ≡ ended 10013 c
        → xs ≡ front ++ (x ∷ back)
        → outgoing c.socket ≡ outgoing s ++ front
        → ¬ IsOpen net
        → Sent Done xs s r

  pub Sent-open :
      {Done : Run S R → S → Type 0} {xs : List ℕ} {s : S} {r : Run S R}
      → IsOpen net
      → Sent Done xs s r
      → (s' : S) × Done r s' × (outgoing s' ≡ outgoing s ++ xs)
  Sent-open open_ (all_out s' done o) = (s', done, o)
  Sent-open open_ (cut_short c front x back e split o closed) = absurd (closed open_)

  pub Sent-nothing :
      {Done : Run S R → S → Type 0} {s : S} {r : Run S R}
      → (s' : S) → Done r s'
      → outgoing s' ≡ outgoing s
      → Sent Done [] s r
  Sent-nothing {s = s} s' done o = all_out s' done (o ∙ sym (append-nil (outgoing s)))

  -- What is sent first, and what is sent then.
  pub Sent-then :
      {First Done : Run S R → S → Type 0} {xs ys : List ℕ} {s : S} {r : Run S R}
      → Sent First xs s r
      → ((s' : S) → First r s' → Sent Done ys s' r)
      → Sent Done (xs ++ ys) s r
  Sent-then {Done = Done} {xs = xs} {ys = ys} {s = s} {r = r} (all_out s1 first o1) next =
      elim (next s1 first) [
        | all_out s2 done o2 ↦
            all_out s2 done (o2 ∙ ap (λ (l : List ℕ). l ++ ys) o1 ∙ append_assoc (outgoing s) xs ys)
        | cut_short c front x back e split o2 closed ↦
            cut_short c (xs ++ front) x back e
              (ap (λ (l : List ℕ). xs ++ l) split ∙ sym (append_assoc xs front (x ∷ back)))
              (o2 ∙ ap (λ (l : List ℕ). l ++ front) o1 ∙ append_assoc (outgoing s) xs front) closed
      ]
  Sent-then {ys = ys} (cut_short c front x back e split o closed) next =
      cut_short c front x (back ++ ys) e
        (ap (λ (l : List ℕ). l ++ ys) split ∙ append_assoc front (x ∷ back) ys) o closed

  pub Sent-last :
      {First Done : Run S R → S → Type 0} {xs : List ℕ} {s : S} {r : Run S R}
      → Sent First xs s r
      → ((s' : S) → First r s' → Sent Done [] s' r)
      → Sent Done xs s r
  Sent-last {xs = xs} first next = rw (append-nil xs) at (Sent-then first next)

  -- A run that goes on from another socket, with nothing sent between.
  pub Sent-from :
      {Done : Run S R → S → Type 0} {xs : List ℕ} {s s1 : S} {r r1 : Run S R}
      → r ≡ r1
      → outgoing s1 ≡ outgoing s
      → Sent Done xs s1 r1
      → Sent Done xs s r
  Sent-from {Done = Done} {xs = xs} same o (all_out s' done o') =
      all_out s' (subst (λ r. Done r s') (sym same) done) (o' ∙ ap (λ (l : List ℕ). l ++ xs) o)
  Sent-from same o (cut_short c front x back e split o' closed) =
      cut_short c front x back (same ∙ e) split (o' ∙ ap (λ (l : List ℕ). l ++ front) o) closed

  -- A method that sends, and then the rest of the run.
  pub write-Sent :
      {m : Action S (Unit {0})} {xs : List ℕ}
      → Writes net m xs
      → (s : S) (k : Caches) (next : Unit {0} → Client S → Run S R)
      → Sent
          (λ r s'. (r ≡ next tt (record { socket = s'; caches = k })) × (incoming s' ≡ incoming s))
          xs
          s
          (after (m (record { socket = s; caches = k })) next)
  write-Sent w s k next = elim (w.runs (record { socket = s; caches = k })) [
    | all_sent s' r o i ↦ all_out s' (after-ok next r, i) o
    | broke_off s' front x back r split o i closed ↦
        cut_short (record { socket = s'; caches = k }) front x back (after-exit next r) split o
          closed
  ]

  -- A method that reads, and then the rest of the run.
  pub read-Sent :
      {A : Type 0} {Done : Run S R → S → Type 0} {m : Action S A} {k k' : Caches} {xs ys : List ℕ}
      {a : A}
      → Takes net m k xs a k'
      → (s : S) (rest : List ℕ) (next : A → Client S → Run S R) → incoming s ≡ xs ++ rest
      → ((s' : S)
          → incoming s' ≡ rest
          → Sent Done ys s' (next a (record { socket = s'; caches = k' })))
      → Sent Done ys s (after (m (record { socket = s; caches = k })) next)
  read-Sent takes s rest next e go =
      let (s', r, i, o) = takes.whole s rest e in Sent-from (after-ok next r) o (go s' i)
