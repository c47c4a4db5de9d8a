-- ===== src/Tests.antt =====
-- The theorems at concrete inputs.
mod Data
mod Hashing
mod Sizes
mod Mining
mod Pools
mod Threads
mod Documents
mod Stratum
mod Getwork
