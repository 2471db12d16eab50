-- ===== src/Examples.antt =====
-- Tests on small inputs, and the theorems at inputs that meet their hypotheses.
mod Kmalloc
mod Lists
mod Memory
mod Schedule
mod Text
mod Space
mod Files
mod Locks
mod Console
mod Processes
mod Blocks
