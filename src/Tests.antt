-- ===== src/Tests.antt =====
-- Runs of the definitions at fixed inputs, and the theorems at concrete ones.
mod Platform
mod Arena
mod Strings
mod HashTable
mod Fcgi
mod Parser
mod Request
mod Net
mod Main
mod Events
mod Run
mod Kept
