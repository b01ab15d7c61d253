-- ===== src/Tests.antt =====
-- The theorems at concrete inputs: a socket that gives and takes one byte at a time, a small board.
mod Socket
mod Samples
mod Wire
mod Board
mod Turns
mod Bounded
mod Session
mod Reach
mod Game
mod Answers
mod Broken
mod Print
