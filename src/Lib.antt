-- ===== src/Lib.antt =====
-- A bot for CodeTroopers: a program that plays a team of troopers on a board, over a TCP connection
-- to the game server. Paths are from the repository's root.
--
-- Parts and files
-- - Base and its children: integers over the native numbers, lists, Boolean tests.
-- - Model.*: the classes and enums of model/. A class is a record, an enum a data type with its
--   numbers (and a constructor for a number that no enumerator names); the constructors, getters
--   and setters of a class are the functions of its module of methods (Model.Trooper.Methods,
--   Model.Units.BonusMethods and so on). A double is its bit pattern; the operations on it are the
--   parameter Fpu. Model.World.Visible is about the table that World::isVisible reads.
-- - Client.*: RemoteProcessClient.h and RemoteProcessClient.cpp. A method is an Action: a function
--   of the client (socket and caches) that returns a value, ends the process by exit(code), or
--   reaches undefined behaviour. Client.Bytes holds readBytes and writeBytes, Client.Scalars the
--   numbers and texts, Client.Units players, troopers and bonuses, Client.Terrain the cells, the
--   visibilities and the world, Client.Messages the whole messages. Client.Stream, Client.Takes
--   and Client.Output say how readers and writers meet a stream of bytes that the socket cuts as
--   it likes; Client.Wire.* says what is on the wire, by printers that are written apart from the
--   readers, and Client.Wire.Errors what the readers refuse (Client.Rejects), with the code of
--   each exit; Client.Endian is about the byte order of the machine.
-- - Strategy.*: MyStrategy.cpp, bottom up. Strategy.Point is struct Point, Strategy.Floyd the
--   table of distances, Strategy.Turn the members of SlavaStrategy and struct State,
--   Strategy.Score and Strategy.Expand the two halves of maximize_score (the score of a state; the
--   recursive calls in their order), Strategy.Search the recursion and the members that it writes,
--   Strategy.Turns the constructor, init, run and MyStrategy::move, with the globals passed on;
--   Strategy.Names has the names of the debug output, Strategy.Point.Print is about the output of
--   a Point. The score of the search is the one of Strategy.Score.Machine, statement by
--   statement in the numbers of the machine. Strategy.Score.score is the same score over the
--   integers, and Strategy.Search.Ideal the search over any given scores: they are what the search
--   is compared with (Strategy.Search.Agree), not models of the code.
-- - Runner: main and Runner::run of Runner.cpp, over the client and the strategy. Runner.Sent says
--   what a run has sent, over a connection that may break; Runner.Session is about the handshake
--   and one turn; Runner.Plays says what a game is as the server plays it, and what it may end
--   with; Runner.Loop and Runner.Program are about main over such a game. Runner.Serves is the
--   server's side alone, whatever the orders are, made of fair turns (Strategy.Turns.Fair) on one
--   board (Strategy.Turns.Board); Runner.Legal and Runner.Main are about the orders that answer
--   it, Runner.Cut and Runner.Greeting about a stream that ends inside a message. Runner.Codes is
--   about every run, whatever the socket does and the server sends, by the rules of
--   Client.Upholds.
-- - Tests.*: the theorems at concrete inputs, over a socket that gives and takes one byte at a
--   time.
--
-- Interfaces
-- - Platform (Client.Monad) is the socket library csimplesocket and the machine's byte order;
--   IsStream (Client.Stream) is what is documented of a TCP socket, IsOpen (Client.Output) that it
--   does not break. Library (Strategy.Turns) is srand and rand; atoi is an argument of main, and the
--   output of an int one of print_point. Theorems hold for every one of them.
--
-- Bounds and fuel
-- - readBytes and writeBytes run on as much fuel as there are bytes to move; each round moves one
--   at least, so this is enough for every socket that is a stream.
-- - maximize_score is recursion on the number of actions left, ten at the start, as in the source.
-- - The loop of run that picks a target, and the loop of Runner::run over the turns, run on fuel
--   that is an argument; they may go on for ever, and a run that is longer than the fuel is a
--   result of its own (still_picking, running).
-- - The bytes of int and long long are those of 32 and 64 bits. The score of a state
--   (Strategy.Score.Machine) is computed in int of 32 bits, an overflow being undefined, and in
--   size_t of 64; a search that meets an overflow ends undefined (overflowed), and so does its turn.
--   The other sums of the search (points, damage, kills) are those of the integers.
--   Strategy.Score.Exact and Strategy.Score.Overflow compare the score with the one over the integers;
--   Strategy.Search.Growth and Strategy.Search.Bounds are about how far ten actions move the
--   damage and the kills of a state, Strategy.Search.Budget and Strategy.Search.Spending about
--   the action points that they spend, Strategy.Floyd.Short about how long a distance of the table
--   is, and Strategy.Turns.Sums puts them together. Where an int product on the wire
--   (readCellVisibilities) overflows, the model is undefined.
-- - A read of floyd_dist at the trooper's own position off the board, a write of cells out of range,
--   an empty team (a division by zero), an overflow of a score and an index without a strategy are
--   undefined in C++ and are results of the model. Other reads out of range, of the cells, the
--   visibilities and the distances, have some value in the model; Strategy.Search.Whole says when
--   a search has none of them, and is a condition where a theorem is about the orders.
--
-- Not modelled: csimplesocket (third-party), local-runner (scripts around the game server) and the
-- log macros of MyStrategy.cpp (output on stderr, under SLAVA_DEBUG only).
pub mod Base
pub mod Model
pub mod Client
pub mod Strategy
pub mod Runner
pub mod Tests
