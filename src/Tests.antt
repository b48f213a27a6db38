-- ===== src/Tests.antt =====
-- Runs of the model on concrete commands, and the theorems at concrete inputs.
mod Samples
mod Machines
mod Histories
mod Boards
mod Clients
mod Codec
mod Clusters
mod Lates
mod Rafts
mod Databases
mod Nodes
mod Benches
mod Quorums
mod Replicas
