-- ===== src/Examples.antt =====
-- The properties at concrete inputs: a directory `/d` on the server, and blocks of 32 bytes.
mod Transfers
mod Confines
mod Clients
mod States
mod Services
mod Starts
mod Certs
mod Pools
mod Queues
