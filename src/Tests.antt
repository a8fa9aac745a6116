-- ===== src/Tests.antt =====
-- Runs of the modelled code at concrete inputs, and the theorems at inputs that meet their
-- hypotheses.
mod Recovery
mod Fs
mod Core
mod Volume
mod Partitions
mod Layers
