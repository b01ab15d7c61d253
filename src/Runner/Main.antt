-- ===== src/Runner/Main.antt =====
-- `main` with its arguments, or without them.
use russian_ai_cup.Base.{ℕ, ◌≡◌, ◌≢◌, List, [], ◌∷◌, length}
use russian_ai_cup.Model.Game.{Game}
use russian_ai_cup.Model.Move.{Move}
use russian_ai_cup.Strategy.Turn.{Turn}
use russian_ai_cup.Runner.{default_host, default_port, default_token}
use russian_ai_cup.Runner.Sent.{Sent}
use russian_ai_cup.Runner.Serves.{Serves}

-- The host, the port and the token that a command line stands for: its three arguments, or the
-- defaults where it has any other number of them. `argv` starts with the program's name.
pub data Stands (argv : List (List ℕ)) (host port token : List ℕ) : Type 0 where
  given :
      (program : List ℕ) → argv ≡ program ∷ host ∷ port ∷ token ∷ [] → Stands argv host port token
  defaults :
      length argv ≢ 4
      → host ≡ default_host
      → port ≡ default_port
      → token ≡ default_token
      → Stands argv host port token
