-- ===== src/Tests.antt =====
-- Runs of the definitions at concrete inputs, and instances of the theorems.
mod Kernels
mod Queues
mod Logs
mod Locks
mod Processes
mod Texts
mod Memory
mod Files
mod Buffers
mod Names
mod Contents
mod Calls
mod Sorts
