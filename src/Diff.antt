-- ===== src/Diff.antt =====
-- src/diffutil.c: diffs, and the review comments between their lines.
pub mod Comments
pub mod Lines
pub mod Ranges
pub mod Trailer
pub mod Hunks
pub mod Headers
pub mod Patches
pub mod Review
