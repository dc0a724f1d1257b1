-- ===== src/Tests.antt =====
-- Tests, and the theorems at concrete inputs: the block manager's, and the others'.
mod Data
mod Pool
mod Requests
mod Transfers
mod Planning
mod Engine
mod Radix
mod Remote
