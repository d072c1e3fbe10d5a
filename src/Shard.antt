-- ===== src/Shard.antt =====
-- The sharded key/value service, lec-2025/src/shardkv1: one module for each package.
pub mod Key
pub mod Config
pub mod Controller
pub mod Clients
pub mod Group
pub mod Migration
pub mod Frozen
pub mod Tests
