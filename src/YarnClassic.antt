-- ===== src/YarnClassic.antt =====
-- hermeto/core/package_managers/yarn_classic: dependencies at run time, and packages.
pub mod Search
pub mod Mirror
pub mod Packages
pub mod Collisions
pub mod Apart
pub mod Inside
pub mod Total
pub mod Reached
