-- ===== src/Gomod.antt =====
-- hermeto/core/package_managers/gomod.py: the Go modules and packages of a project.
pub mod Models
pub mod Vendor
pub mod Listed
pub mod Directives
pub mod Toolchain
pub mod Bounds
pub mod Chosen
pub mod Selected
pub mod Paths
pub mod Modules
pub mod Packages
pub mod Names
pub mod Parents
pub mod Owners
pub mod Majors
pub mod Tags
pub mod Ranked
pub mod Highest
pub mod Project
pub mod Workspace
pub mod Resolve
pub mod Replacements
pub mod Surroundings
pub mod Fetch
pub mod Unchanged
pub mod Pristine
