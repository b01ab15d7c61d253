-- ===== src/Client.antt =====
-- RemoteProcessClient.h and RemoteProcessClient.cpp: the protocol with the game server.
pub mod Monad
pub mod Bytes
pub mod Stream
pub mod Takes
pub mod Rejects
pub mod Scalars
pub mod Units
pub mod Terrain
pub mod Messages
pub mod Wire
pub mod Output
pub mod Endian
pub mod Upholds
