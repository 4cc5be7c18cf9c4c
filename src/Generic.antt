-- ===== src/Generic.antt =====
-- hermeto/core/package_managers/generic: artifacts that a lockfile names.
pub mod Models
pub mod Components
pub mod Placed
pub mod Main
