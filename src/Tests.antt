-- ===== src/Tests.antt =====
-- Runs of the scanners on small devices, and the theorems at concrete inputs.
pub mod Sample
mod Graph
mod Late
mod Lov
pub mod Described
pub mod Objects
mod Disks
mod Lsfsck
mod Mains
mod Checker
mod Client
mod Demo
mod Mds
mod Older
mod Ost
mod Pieces
