-- ===== src/Client/Monad.antt =====
-- A method of RemoteProcessClient: it changes the client, and returns, ends the process by
-- `exit(code)`, or reaches what C++ leaves undefined. The socket (csimplesocket) and the processor
-- are parameters.
use russian_ai_cup.Base.{ℕ, ℤ, Bool, Option, List}
use russian_ai_cup.Model.World.{Cells}

-- CActiveSocket and the byte order of the machine. `receive n` is Receive(n) with the bytes that
-- GetData() then points to; `send bytes` is Send, with the count that it answers.
pub record Platform (S : Type 0) : Type 0 where
  pub open_socket : List ℕ → ℤ → S → Bool × S
  pub close_socket : S → S
  pub receive : ℕ → S → ℤ × List ℕ × S
  pub send : List ℕ → S → ℤ × S
  pub little_endian : Bool

-- What the client keeps of the first world message: `NULL` is `none`.
pub record Caches : Type 0 where
  pub cells : Option Cells
  pub cell_visibilities : Option (List Bool)

pub record Client (S : Type 0) : Type 0 where
  pub socket : S
  pub caches : Caches
  pub open caches use *

pub data Result (A : Type 0) : Type 0 where
  ok : A → Result A
  exit : ℕ → Result A
  undefined : Result A

abbrev pub Action : Type 0 → Type 0 → Type 0
Action S A = Client S → Result A × Client S

module _ {S A : Type 0} where
  unfoldable pub pure : A → Action S A
  pure a c = (ok a, c)

  unfoldable pub fail : Result A → Action S A
  fail r c = (r, c)

infixl 5 ◌>>=◌ ◌>>◌
unfoldable pub ◌>>=◌ : {S A B : Type 0} → Action S A → (A → Action S B) → Action S B
◌>>=◌ m f c =
    let (r, c') = m c in
    elim r [ ok a ↦ f a c' | exit code ↦ (exit code, c') | undefined ↦ (undefined, c') ]

abbrev pub ◌>>◌ : {S A B : Type 0} → Action S A → Action S B → Action S B
m >> k = m >>= λ _. k
