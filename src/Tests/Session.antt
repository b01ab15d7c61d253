-- ===== src/Tests/Session.antt =====
-- The session: the handshake, turns on the row of cells and the end of the game; the malformed
-- messages.
use russian_ai_cup.Base.{
  ℕ, ◌≡◌, refl, sym, append-nil, List, ap, pos, pos_part, true, false, [], ◌∷◌, ◌++◌, arith,
}
use russian_ai_cup.Model.World.{free, cell_type_code, cell_type_of}
use russian_ai_cup.Strategy.Search.{Tracker}
use russian_ai_cup.Strategy.Turns.{ordered, run_turn}
use russian_ai_cup.Strategy.Turns.Orders.{run_turn-orders}
use russian_ai_cup.Model.World.{PlayerContext}
use russian_ai_cup.Client.Messages.{game_over, player_context}
use russian_ai_cup.Client.Wire.World.{WorldFits, no_caches, terrain_of}
use russian_ai_cup.Client.Wire.Messages.{print_player_context, read_player_context-later}
use russian_ai_cup.Client.Wire.GameContext.{print_type}
use russian_ai_cup.Client.Wire.Output.{print_move}
use russian_ai_cup.Runner.{finished, ended, run, run_turns}
use russian_ai_cup.Runner.Session.{greeting, introduction, run-handshake, run_turns-turn}
use russian_ai_cup.Tests.Socket.{Pipe, to_come, gone, drip, drip-IsStream, drip-IsOpen, full}
use russian_ai_cup.Tests.Samples.{rules, rules-GameFits, sniper-TrooperFits}
use russian_ai_cup.Client.Rejects.{Rejects}
use russian_ai_cup.Client.Messages.{read_player_context}
use russian_ai_cup.Client.Wire.Scalars.{IsEnum, print_int, print_boolean, print_enum}
use russian_ai_cup.Client.Wire.Units.{ListFits, print_list, print_player, print_trooper}
use russian_ai_cup.Client.Wire.Errors.{bad_item, absent}
use russian_ai_cup.Client.Wire.Errors.World.{print_header, bad_troopers, MalformedWorld}
use russian_ai_cup.Client.Wire.Errors.Turn.{unexpected_type, bad_world, read_player_context-Rejects}
use russian_ai_cup.Client.Wire.Terrain.{CellsFit, VisibilitiesFit}
use russian_ai_cup.Client.Wire.Messages.{print_terrain}
use russian_ai_cup.Runner.{start_run}
use russian_ai_cup.Runner.Program.{start_run-Plays, start_run-Malformed}
use russian_ai_cup.Client.Monad.{Client}
use russian_ai_cup.Runner.Plays.{Plays, ending, over, opening, Over, Malformed}
use russian_ai_cup.Runner.Loop.{print_moves}
use russian_ai_cup.Tests.Turns.{
  counter, easy, row, covered_row, second_turn, second_globals, sniper_here, row-covered,
  row-on_board, row-picked, row-team, view,
}
use russian_ai_cup.Tests.Bounded.{view-IsWhole, view-scored}
use russian_ai_cup.Strategy.Score.{score}

run-handshake_example :
    (s' : Pipe) × (run drip counter easy 5 9
        (48 ∷ [])
        second_turn
        (record { socket = full (greeting (pos 3) rules); caches = no_caches })
      ≡ run_turns drip counter easy 5 9
          (pos 3)
          rules
          (record { socket = s'; caches = no_caches })
          second_turn)
    × (gone s' ≡ introduction (48 ∷ []))
    × (to_come s' ≡ [])
run-handshake_example =
    run-handshake drip-IsStream drip-IsOpen refl counter easy 5 9 (48 ∷ []) [] (pos 3) rules
      second_turn (full (greeting (pos 3) rules)) no_caches (omega arith) (omega arith)
      rules-GameFits (sym (append-nil (greeting (pos 3) rules)))

-- The world of a single row, on the wire.
row-WorldFits : WorldFits row
row-WorldFits = record {
  move_index = omega arith;
  width = omega arith;
  height = omega arith;
  players = (omega arith, tt);
  troopers = (omega arith, (sniper-TrooperFits, tt));
  bonuses = (omega arith, tt);
}

abbrev row_context : PlayerContext
row_context = record { trooper = sniper_here; world = row }

abbrev ordered_turn :
    (tr : Tracker) × (run_turn counter easy 5 sniper_here row rules second_turn
      ≡ ordered tr.best_action second_globals)
ordered_turn =
    let (tr, e, _, _, _) =
      run_turn-orders counter easy 5 sniper_here row rules second_turn second_globals covered_row
        sniper_here [] (score view) row-covered row-on_board row-picked row-team refl (omega arith)
        view-IsWhole view-scored in
    (tr, e)

run_turns-turn_example :
    (s' : Pipe) × (run_turns drip counter easy 5 9
        (pos 3)
        rules
        (record {
          socket = full (print_player_context row_context [] ++ []);
          caches = terrain_of row;
        })
        second_turn
      ≡ run_turns drip counter easy 5 8
          (pos 3)
          rules
          (record { socket = s'; caches = terrain_of row })
          second_globals)
    × (to_come s' ≡ [])
    × (gone s' ≡ print_move ordered_turn.0.best_action)
run_turns-turn_example =
    run_turns-turn drip-IsStream drip-IsOpen refl counter easy 5 8 (pos 3) rules second_turn
      second_globals (full (print_player_context row_context [] ++ [])) (terrain_of row)
      (terrain_of row) row_context ordered_turn.0.best_action (print_player_context row_context [])
      [] (read_player_context-later drip-IsStream refl row_context sniper-TrooperFits row-WorldFits)
      refl refl ordered_turn.1

pub column-Fits : ListFits (IsEnum cell_type_code cell_type_of) (free ∷ [])
column-Fits = (omega arith, ((omega arith, refl), tt))

row-CellsFit : CellsFit row.cells
row-CellsFit = let f = column-Fits in (omega arith, (f, (f, (f, (f, (f, (f, (f, (f, tt)))))))))

row-VisibilitiesFit : VisibilitiesFit 8 1 3 row.cell_visibilities
row-VisibilitiesFit = record {
  width_fits = omega arith;
  height_fits = omega arith;
  stances_fit = omega arith;
  product2 = omega arith;
  product3 = omega arith;
  product4 = omega arith;
  product5 = omega arith;
  size = refl;
}

-- A game of one turn: what the server sends in it.
abbrev one_turn : List ℕ
one_turn = print_player_context row_context (print_terrain row 8 1 3) ++ print_type game_over

one_turn-Plays :
    Plays counter easy 5
      (pos 3)
      rules
      (Over second_globals (terrain_of row))
      no_caches
      second_turn
      one_turn
      (ordered_turn.0.best_action ∷ [])
one_turn-Plays =
    opening row_context ordered_turn.0.best_action 8 1 3 refl sniper-TrooperFits row-WorldFits
      row-CellsFit row-VisibilitiesFit refl (record { strategy = refl; order = ordered_turn.1 })
      refl (ending (over refl refl refl) refl)

start_run-Plays_example :
    (s' : Pipe) × (start_run drip counter easy 5 9 []
        (pos 31001)
        (48 ∷ [])
        second_turn
        (full (greeting (pos 3) rules ++ (one_turn ++ [])))
      ≡ finished (record { socket = s'; caches = terrain_of row }) second_globals)
    × (to_come s' ≡ [])
    × (gone s' ≡ introduction (48 ∷ []) ++ print_moves (ordered_turn.0.best_action ∷ []))
start_run-Plays_example =
    start_run-Plays drip-IsStream drip-IsOpen refl counter easy 5 (pos 3) rules second_globals
      (terrain_of row) 9 [] (48 ∷ []) one_turn [] (pos 31001) (ordered_turn.0.best_action ∷ [])
      second_turn (full (greeting (pos 3) rules ++ (one_turn ++ [])))
      (full (greeting (pos 3) rules ++ (one_turn ++ []))) refl (omega arith) (omega arith)
      rules-GameFits one_turn-Plays refl (omega arith)

-- A turn, and then a message of the type AUTHENTICATION_TOKEN.
abbrev broken_off : List ℕ
broken_off = print_player_context row_context (print_terrain row 8 1 3) ++ print_enum (pos 2)

broken_off-Plays :
    Plays counter easy 5
      (pos 3)
      rules
      (Malformed 10011)
      no_caches
      second_turn
      broken_off
      (ordered_turn.0.best_action ∷ [])
broken_off-Plays =
    opening row_context ordered_turn.0.best_action 8 1 3 refl sniper-TrooperFits row-WorldFits
      row-CellsFit row-VisibilitiesFit refl (record { strategy = refl; order = ordered_turn.1 })
      refl
      (ending
        (unexpected_type (pos 2) (omega arith) (λ e. omega (arith, ap pos_part e))
          (λ e. omega (arith, ap pos_part e)))
        refl)

start_run-Malformed_example :
    (c : Client Pipe) × (start_run drip counter easy 5 9 []
        (pos 31001)
        (48 ∷ [])
        second_turn
        (full (greeting (pos 3) rules ++ (broken_off ++ [])))
      ≡ ended 10011 c)
    × (gone c.socket ≡ introduction (48 ∷ []) ++ print_moves (ordered_turn.0.best_action ∷ []))
start_run-Malformed_example =
    start_run-Malformed drip-IsStream drip-IsOpen refl counter easy 5 (pos 3) rules 10011 9 []
      (48 ∷ []) broken_off [] (pos 31001) (ordered_turn.0.best_action ∷ []) second_turn
      (full (greeting (pos 3) rules ++ (broken_off ++ [])))
      (full (greeting (pos 3) rules ++ (broken_off ++ []))) refl (omega arith) (omega arith)
      rules-GameFits broken_off-Plays refl (omega arith)

-- A world of two troopers whose second one is absent.
abbrev half_world : List ℕ
half_world = print_header row (
    print_list print_player []
    ++ (print_int (pos 2) ++ ((print_trooper sniper_here ++ []) ++ print_boolean false)))

half_world-Malformed : MalformedWorld half_world 10006
half_world-Malformed =
    bad_troopers row
      (print_int (pos 2) ++ ((print_trooper sniper_here ++ []) ++ print_boolean false)) 10006
      row-WorldFits
      (bad_item 2 (sniper_here ∷ []) (print_boolean false) 10006 (omega arith) (omega arith)
        (sniper-TrooperFits, tt) absent)

read_player_context-Rejects_example :
    Rejects drip-IsStream
      (read_player_context drip)
      no_caches
      (print_type player_context
        ++ (print_boolean true ++ (print_trooper sniper_here ++ half_world)))
      10006
read_player_context-Rejects_example =
    read_player_context-Rejects drip-IsStream refl no_caches
      (print_type player_context
        ++ (print_boolean true ++ (print_trooper sniper_here ++ half_world)))
      10006 (bad_world sniper_here half_world 10006 refl sniper-TrooperFits half_world-Malformed)
