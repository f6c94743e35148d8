-- ===== src/Sharky.antt =====
-- pkg/sharky: the slots of the file of a shard, in which chunks are stored.
pub mod Slots
