-- ===== src/Tests.antt =====
-- Runs of the modelled functions on small inputs, and each theorem at an input that meets its
-- hypotheses.
mod Packets
mod Checksums
mod Splitting
mod Batches
mod Merging
mod Settings
mod Building
mod Descriptors
mod Names
mod Wintun
mod Tables
