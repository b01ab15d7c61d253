-- ===== src/Model.antt =====
-- The data that the game server and the strategy exchange (model/*.h, model/*.cpp). A C++ class is
-- a record: its constructor is the record's, its getters are the fields.
pub mod Double
pub mod Units
pub mod Trooper
pub mod Move
pub mod World
pub mod Game
