-- ===== src/Client/Upholds.antt =====
-- What holds of a method of the client whatever the socket does and the server sends: the codes of
-- its exits, and a relation between the caches before and after it.
pub mod Readers
pub mod Turns
pub mod Handshake
use russian_ai_cup.Base.{
  ℕ, zero, suc, ◌≤◌, ◌≡◌, refl, sym, subst, ◌∙◌, Bool, true, false, List, [], length, ◌==◌,
  if◌then◌else◌, arith,
}
use russian_ai_cup.Client.Monad.{
  Platform, Client, Caches, Result, ok, exit, undefined, Action, pure, fail, ◌>>=◌,
}
use russian_ai_cup.Client.Bytes.{read_loop, write_loop, read_bytes, write_bytes}
use russian_ai_cup.Client.Units.{repeat}

-- The codes of RemoteProcessClient.cpp.
abbrev pub IsCode : ℕ → Type 0
IsCode code = (10001 ≤ code) × (code ≤ 10020)

abbrev pub IsKnown : {A : Type 0} → Result A → Type 0
IsKnown (ok a) = Unit {0}
IsKnown (exit code) = IsCode code
IsKnown undefined = Unit {0}

if-IsKnown :
    {A : Type 0} (b : Bool) (a : A) (code : ℕ)
    → IsCode code
    → IsKnown (if b then ok a else exit code)
if-IsKnown true a code h = tt
if-IsKnown false a code h = h

-- A relation between caches that holds over any number of steps.
pub record IsSteady (P : Caches → Caches → Type 0) : Type 0 where
  pub stays : (k : Caches) → P k k
  pub next : {a b c : Caches} → P a b → P b c → P a c

module _ {S : Type 0} (P : Caches → Caches → Type 0) where
  abbrev pub Fine : {A : Type 0} → Caches → Result A × Client S → Type 0
  Fine k r = IsKnown r.0 × P k r.1.caches

  pub record Upholds {A : Type 0} (m : Action S A) : Type 0 where
    pub at : (c : Client S) → Fine c.caches (m c)

module _ {S : Type 0} {P : Caches → Caches → Type 0} (steady : IsSteady P) where
  pub pure-Upholds : {A : Type 0} (a : A) → Upholds {S = S} P (pure a)
  unfolding pure
  pure-Upholds a = record { at = λ c. (tt, steady.stays c.caches) }

  pub exit-Upholds :
      {A : Type 0} (code : ℕ) → IsCode code → Upholds {S = S} P {A = A} (fail (exit code))
  unfolding fail
  exit-Upholds code h = record { at = λ c. (h, steady.stays c.caches) }

  pub undefined-Upholds : {A : Type 0} → Upholds {S = S} P {A = A} (fail undefined)
  unfolding fail
  undefined-Upholds = record { at = λ c. (tt, steady.stays c.caches) }

  pub if-Upholds :
      {A : Type 0} (b : Bool) {m n : Action S A}
      → Upholds P m
      → Upholds P n
      → Upholds P (if b then m else n)
  if-Upholds true hm hn = hm
  if-Upholds false hm hn = hn

  follow :
      {A B : Type 0} (f : A → Action S B) (k : Caches) (r : Result A) (c : Client S)
      → Fine P k (r, c)
      → ((a : A) → Upholds P (f a))
      → Fine P k (((λ (c' : Client S). (r, c')) >>= f) c)
  unfolding ◌>>=◌
  follow f k (ok a) c (known, p) next =
      let (known', p') = (next a).at c in (known', steady.next p p')
  follow f k (exit code) c fine next = fine
  follow f k undefined c fine next = fine

  pub bind-Upholds :
      {A B : Type 0} {m : Action S A} {f : A → Action S B}
      → Upholds P m
      → ((a : A) → Upholds P (f a))
      → Upholds P (m >>= f)
  unfolding ◌>>=◌
  bind-Upholds {m = m} {f = f} first next = record {
    at = λ c. follow f c.caches (m c).0 (m c).1 (first.at c) next;
  }

  pub repeat-Upholds :
      {A : Type 0} (n : ℕ) {read : Action S A} → Upholds P read → Upholds P (repeat n read)
  unfolding repeat
  repeat-Upholds zero one = pure-Upholds _
  repeat-Upholds (suc n) one =
      bind-Upholds one (λ a. bind-Upholds (repeat-Upholds n one) (λ rest. pure-Upholds _))

  module _ (p : Platform S) where
    pub read_bytes-Upholds : (n : ℕ) → Upholds P (read_bytes p n)
    unfolding read_bytes
    read_bytes-Upholds n = record {
      at = λ c.
          let (offset, bytes, s) = read_loop p n n 0 [] c.socket in
          (if-IsKnown (offset == n) bytes 10012 (omega arith), steady.stays c.caches);
    }

    pub write_bytes-Upholds : (xs : List ℕ) → Upholds P (write_bytes p xs)
    unfolding write_bytes
    write_bytes-Upholds xs = record {
      at = λ c.
          let (offset, s) = write_loop p (length xs) xs 0 c.socket in
          (if-IsKnown (offset == length xs) tt 10013 (omega arith), steady.stays c.caches);
    }
