-- ===== src/Deck/Legal.antt =====
-- What the two chains accept, said without the chains: a deck passes exactly if it meets every
-- rule of the list and of the room.
pub mod Rules
pub mod Pools
pub mod Points
pub mod Chain
pub mod Entries
