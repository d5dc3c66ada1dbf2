-- ===== src/Tests.antt =====
-- Concrete runs of the models: each result applied at an input of the program.
mod Codec
mod Watchers
mod Servers
mod Packets
mod Requests
mod Sessions
mod Batching
mod Worlds
mod Loops
mod Words
mod Clients
mod Locks
