-- ===== src/Examples.antt =====
-- The theorems at concrete inputs, and runs of the code.
mod Queries
mod Sessions
mod Handshakes
mod Clusters
mod Calls
mod Methods
mod Macros
mod Builds
mod Times
mod Lifetimes
mod Texts
mod Programs
