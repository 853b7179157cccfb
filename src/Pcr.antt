-- ===== src/Pcr.antt =====
-- PCR selections: types_structures.go.
pub mod Bitmap
pub mod Bits
pub mod Selection
pub mod Octets
pub mod Inverse
pub mod Wire
pub mod Copy
pub mod Lists
pub mod Sets
pub mod Remove
pub mod Empties
pub mod Merge
pub mod Values
pub mod Banks
pub mod Selected
mod ValuesExamples
mod Examples
