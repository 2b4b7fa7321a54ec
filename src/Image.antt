-- ===== src/Image.antt =====
-- internal/image: references to images.
pub mod Types
pub mod Manifest
pub mod Parse
pub mod Scan
pub mod RoundTrip
pub mod Parsed
pub mod Complete
pub mod Examples
