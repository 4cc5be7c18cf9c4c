-- ===== src/Sbom.antt =====
-- hermeto/core/models/sbom.py: the components of a CycloneDX document and how they are merged.
pub mod Component
pub mod Merge
pub mod Absorb
pub mod AbsorbRight
pub mod Document
pub mod Spdx
pub mod Packages
pub mod Relations
pub mod Convert
