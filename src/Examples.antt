-- ===== src/Examples.antt =====
-- Concrete inputs at which the theorems apply.
mod Fixtures
mod Strings
mod Digests
mod Disks
mod Devices
mod Dates
mod Memory
mod Spaces
mod Slabs
mod Scheduling
mod Locks
mod Queue
mod SpoolFiles
mod Volumes
mod Tasks
mod Machine
mod Channel
