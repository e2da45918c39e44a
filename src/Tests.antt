-- ===== src/Tests.antt =====
-- Every theorem that has conditions or arguments, at concrete values.
mod Sets
mod Clusters
mod Tracking
mod Processing
mod Redeploying
mod Manifests
mod Server
mod Serving
mod Deploying
mod Starting
mod Resyncing
mod Converging
mod Booting
mod Generating
mod Failing
mod Codec
mod Naming
mod Noticing
mod Removing
