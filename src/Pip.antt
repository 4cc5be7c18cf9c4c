-- ===== src/Pip.antt =====
-- hermeto/core/package_managers/pip/requirements.py: reading requirements files.
pub mod External
pub mod Options
pub mod Requirement
pub mod FromLine
pub mod Lines
pub mod Tokens
pub mod RoundTrip
pub mod Global
pub mod Validate
pub mod Wheels
pub mod Distributions
pub mod Picked
pub mod Offered
pub mod Acceptable
