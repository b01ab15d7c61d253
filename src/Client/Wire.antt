-- ===== src/Client/Wire.antt =====
-- The protocol's format, written independently of the readers: how a value lies on the wire. Numbers
-- have their lowest byte first; a list is its length and its items; what may be absent has a flag.
pub mod Scalars
pub mod Units
pub mod Terrain
pub mod World
pub mod GameContext
pub mod Messages
pub mod Errors
pub mod Output
