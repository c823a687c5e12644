-- ===== src/Tests.antt =====
-- The theorems at concrete inputs.
mod Data
mod Streams
mod Stores
mod Emission
mod Replicas
mod Callers
mod Frames
mod Manager
mod Triggers
mod Doorbell
mod Cluster
mod Views
