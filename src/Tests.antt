-- ===== src/Tests.antt =====
-- Runs on concrete data, and each theorem at an input.
mod Components
mod Requirements
mod Paths
mod Outputs
mod Spdx
mod Yarn
mod Npm
mod Mirror
mod Generic
mod Gomod
mod Distributions
mod Tags
mod Resolve
mod Fetch
