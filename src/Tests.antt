-- ===== src/Tests.antt =====
-- Concrete inputs on which the theorems are applied, and the server that answers them.
mod Server
mod Cluster
mod Converging
mod Inputs
mod Examples
mod Values
mod Dynamics
mod Repeats
