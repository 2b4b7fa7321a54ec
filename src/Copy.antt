-- ===== src/Copy.antt =====
-- internal/image/copy: requests for copies, and the copies of images and their parts.
pub mod Spec
pub mod Lookup
pub mod Coalesce
pub mod Rules
pub mod Blobs
pub mod Manifests
pub mod Platforms
pub mod PlatformCopier
pub mod IndexEdit
pub mod Indexer
pub mod Copier
pub mod Examples
