-- ===== src/Client/Wire/Errors/World.antt =====
-- What readWorld refuses: the malformed world messages and the code that the process ends with.
use russian_ai_cup.Base.{ℕ, ◌≡◌, ℤ, true, false, List, ◌++◌, none}
use russian_ai_cup.Model.World.{World}
use russian_ai_cup.Client.Monad.{Platform, Action, ◌>>=◌, ◌>>◌}
use russian_ai_cup.Client.Terrain.{read_world}
use russian_ai_cup.Client.Scalars.{read_int}
use russian_ai_cup.Client.Units.{expect_present}
use russian_ai_cup.Client.Stream.{IsStream}
use russian_ai_cup.Client.Takes.{◌into◌then◌}
use russian_ai_cup.Client.Rejects.{Rejects, stops, ◌into◌rejects◌}
use russian_ai_cup.Client.Wire.Scalars.{print_boolean, print_int, read_int-Takes}
use russian_ai_cup.Client.Wire.Units.{
  print_list, expect_present-Takes, TrooperFits, BonusFits, PlayerFits, print_trooper, print_bonus,
  print_player,
}
use russian_ai_cup.Client.Wire.Terrain.{print_cells, CellsFit, read_cells-fresh}
use russian_ai_cup.Client.Wire.World.{
  WorldFits, no_caches, read_players-Takes, read_troopers-Takes, read_bonuses-Takes,
}
use russian_ai_cup.Client.Wire.Errors.{
  MalformedList, AbsentItem, MalformedPlayer, expect_present-Rejects, read_players-Rejects,
  read_troopers-Rejects, read_bonuses-Rejects,
}
use russian_ai_cup.Client.Wire.Errors.Terrain.{
  MalformedCells, MalformedVisibilities, read_cells-Rejects, read_visibilities-Rejects,
}

-- The part of a world message before its lists, and what follows it.
abbrev pub print_header : World → List ℕ → List ℕ
print_header w rest =
    print_boolean true
    ++ (print_int w.move_index ++ (print_int w.width ++ (print_int w.height ++ rest)))

-- The world messages that a new client refuses; `w` holds the parts that are well formed.
pub data MalformedWorld : List ℕ → ℕ → Type 0 where
  absent_world : MalformedWorld (print_boolean false) 10002
  bad_players :
      (w : World) (xs : List ℕ) (code : ℕ)
      → WorldFits w
      → MalformedList PlayerFits print_player 10003 MalformedPlayer xs code
      → MalformedWorld (print_header w xs) code
  bad_troopers :
      (w : World) (xs : List ℕ) (code : ℕ)
      → WorldFits w
      → MalformedList TrooperFits print_trooper 10005 (AbsentItem 10006) xs code
      → MalformedWorld (print_header w (print_list print_player w.players ++ xs)) code
  bad_bonuses :
      (w : World) (xs : List ℕ) (code : ℕ)
      → WorldFits w
      → MalformedList BonusFits print_bonus 10009 (AbsentItem 10010) xs code
      → MalformedWorld
          (print_header w
            (print_list print_player w.players ++ (print_list print_trooper w.troopers ++ xs)))
          code
  bad_cells :
      (w : World) (xs : List ℕ) (code : ℕ)
      → WorldFits w
      → MalformedCells xs code
      → MalformedWorld
          (print_header w (
            print_list print_player w.players
            ++ (print_list print_trooper w.troopers ++ (print_list print_bonus w.bonuses ++ xs))))
          code
  bad_visibilities :
      (w : World) (xs : List ℕ) (code : ℕ)
      → WorldFits w
      → CellsFit w.cells
      → MalformedVisibilities xs code
      → MalformedWorld
          (print_header w (
            print_list print_player w.players
            ++ (print_list print_trooper w.troopers
                ++ (print_list print_bonus w.bonuses ++ (print_cells w.cells ++ xs)))))
          code

module _ {S : Type 0} {p : Platform S} (net : IsStream p) (little : p.little_endian ≡ true) where
  -- The steps of readWorld before the lists; `f` is the rest of the method.
  header-Rejects :
      {A : Type 0} (f : ℤ → ℤ → ℤ → Action S A) (w : World) (xs : List ℕ) (code : ℕ)
      → WorldFits w
      → Rejects net (f w.move_index w.width w.height) no_caches xs code
      → Rejects net
          (do
            expect_present p 10002
            move_index ← read_int p
            width ← read_int p
            height ← read_int p
            f move_index width height)
          no_caches
          (print_header w xs)
          code
  header-Rejects f w xs code h r =
      expect_present-Takes net little 10002 no_caches
      into _ rejects read_int-Takes net little w.move_index no_caches h.move_index
      into _ rejects read_int-Takes net little w.width no_caches h.width
      into _ rejects read_int-Takes net little w.height no_caches h.height
      into _ rejects r

  -- On a little-endian machine with a stream for a socket: on each malformed world message readWorld
  -- of a new client ends the process by exit with the code of the message's first error, whatever
  -- follows. The errors: no world (10002), a negative count of players (10003), troopers (10005),
  -- bonuses (10009), columns (10007) or cells of a column (10008), an absent player (10004), trooper
  -- (10006) or bonus (10010) behind any number of good ones, a name of length -1 (10014), a negative
  -- width (10018), height (10019) or number of stances (10020) of the visibilities. It has sent
  -- nothing.
  pub read_world-Rejects :
      (xs : List ℕ) (code : ℕ)
      → MalformedWorld xs code
      → Rejects net (read_world p) no_caches xs code
  unfolding read_world
  read_world-Rejects _ _ absent_world = stops _ (expect_present-Rejects net little 10002 no_caches)
  read_world-Rejects _ _ (bad_players w xs code h bad) =
      header-Rejects _ w xs code h (stops _ (read_players-Rejects net little no_caches xs code bad))
  read_world-Rejects _ _ (bad_troopers w xs code h bad) = header-Rejects _ w _ code h (
      read_players-Takes net little w.players no_caches h.players
      into _ rejects stops _ (read_troopers-Rejects net little no_caches xs code bad))
  read_world-Rejects _ _ (bad_bonuses w xs code h bad) = header-Rejects _ w _ code h (
      read_players-Takes net little w.players no_caches h.players
      into _ rejects read_troopers-Takes net little w.troopers no_caches h.troopers
      into _ rejects stops _ (read_bonuses-Rejects net little no_caches xs code bad))
  read_world-Rejects _ _ (bad_cells w xs code h bad) = header-Rejects _ w _ code h (
      read_players-Takes net little w.players no_caches h.players
      into _ rejects read_troopers-Takes net little w.troopers no_caches h.troopers
      into _ rejects read_bonuses-Takes net little w.bonuses no_caches h.bonuses
      into _ rejects stops _ (read_cells-Rejects net little xs code bad))
  read_world-Rejects _ _ (bad_visibilities w xs code h good bad) = header-Rejects _ w _ code h (
      read_players-Takes net little w.players no_caches h.players
      into _ rejects read_troopers-Takes net little w.troopers no_caches h.troopers
      into _ rejects read_bonuses-Takes net little w.bonuses no_caches h.bonuses
      into _ rejects read_cells-fresh net little none w.cells good
      into _ rejects stops _ (read_visibilities-Rejects net little w xs code bad))
