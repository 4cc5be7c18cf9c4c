-- ===== src/Npm.antt =====
-- hermeto/core/package_managers/npm.py: the lockfile, the downloads, and the SBOM of npm packages.
pub mod Urls
pub mod Lock
pub mod Purls
pub mod Downloads
pub mod Update
pub mod Wanted
pub mod Paths
pub mod Cleared
pub mod Local
pub mod Fetch
