-- ===== src/Examples.antt =====
-- Runs of the model on concrete data, and its theorems at inputs that meet their hypotheses.
mod Stores
mod Rollouts
mod Servers
mod Provisions
mod Images
mod Disks
mod Drains
mod Credentials
