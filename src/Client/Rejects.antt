-- ===== src/Client/Rejects.antt =====
-- How a reader of the client ends the process on bytes that it does not accept.
use russian_ai_cup.Base.{
  ℕ, zero, suc, ◌<◌, ◌≡◌, refl, ◌∙◌, List, [], ◌∷◌, ◌++◌, append_assoc, concat, length, All, arith,
}
use mathlib.Core.List.{map}
use russian_ai_cup.Client.Monad.{Platform, Client, Caches, exit, Action, ◌>>=◌, fail}
use russian_ai_cup.Client.Units.{repeat}
use russian_ai_cup.Client.Stream.{IsStream}
use russian_ai_cup.Client.Takes.{Takes, >>=-ok, >>=-exit}

module _ {S : Type 0} {p : Platform S} (net : IsStream p) where
  open net use {incoming, outgoing}

  -- From the caches `k`, on a stream that starts with `xs`, the reader ends the process by
  -- exit(code), and has sent nothing.
  pub record Rejects {A : Type 0} (m : Action S A) (k : Caches) (xs : List ℕ) (code : ℕ)
      : Type 0 where
    pub ends :
        (s : S) (rest : List ℕ)
        → incoming s ≡ xs ++ rest
        → (c : Client S) × (m (record { socket = s; caches = k }) ≡ (exit code, c))
          × (outgoing c.socket ≡ outgoing s)

  pub fail-Rejects :
      {A : Type 0} (k : Caches) (code : ℕ) → Rejects (fail {A = A} (exit code)) k [] code
  unfolding fail
  fail-Rejects k code = record {
    ends = λ s rest e. (record { socket = s; caches = k }, refl, refl);
  }

module _ {S : Type 0} {p : Platform S} {net : IsStream p} where
  -- A method stops at a first step that rejects its bytes.
  pub stops :
      {A B : Type 0} {m : Action S A} {k : Caches} {xs : List ℕ} {code : ℕ} (f : A → Action S B)
      → Rejects net m k xs code
      → Rejects net (m >>= f) k xs code
  stops {m = m} f first = record {
    ends = λ s rest e. let (c, r, o) = first.ends s rest e in (c, >>=-exit m f r, o);
  }

  -- A method whose first step takes its bytes, and whose rest, `f`, rejects the next ones.
  infixr 6 ◌into◌rejects◌
  pub ◌into◌rejects◌ :
      {A B : Type 0} {m : Action S A} {k k' : Caches} {xs ys : List ℕ} {a : A} {code : ℕ}
      → Takes net m k xs a k'
      → (f : A → Action S B) → Rejects net (f a) k' ys code
      → Rejects net (m >>= f) k (xs ++ ys) code
  ◌into◌rejects◌ {m = m} {xs = xs} {ys = ys} first f second = record {
    ends = λ s rest e.
        let (s1, r1, i1, o1) = first.whole s (ys ++ rest) (e ∙ append_assoc xs ys rest) in
        let (c, r, o) = second.ends s1 rest i1 in (c, >>=-ok m f r1 ∙ r, o ∙ o1);
  }

  -- A loop of `n` steps that takes the items `xs`, fewer than `n`, and rejects what follows them.
  pub repeat-Rejects :
      {A : Type 0} (Fits : A → Type 0) (print : A → List ℕ) (read : Action S A) (k : Caches)
      (ys : List ℕ) (code : ℕ)
      → ((a : A) → Fits a → Takes net read k (print a) a k)
      → Rejects net read k ys code
      → (n : ℕ) (xs : List A) → length xs < n
      → All Fits xs
      → Rejects net (repeat n read) k (concat (map print xs) ++ ys) code
  unfolding repeat
  repeat-Rejects Fits print read k ys code one bad zero xs l h = absurd (omega arith)
  repeat-Rejects Fits print read k ys code one bad (suc n) [] l h = stops _ bad
  repeat-Rejects Fits print read k ys code one bad (suc n) (x ∷ xs) l h =
      rw (append_assoc (print x) (concat (map print xs)) ys) (
        one x h.0
        into _ rejects
          stops _ (repeat-Rejects Fits print read k ys code one bad n xs (omega arith) h.1))
