-- ===== src/Examples.antt =====
-- The theorems at concrete inputs.
pub mod Pmm
pub mod Boot
pub mod Bits
pub mod Caches
pub mod Links
pub mod Screens
pub mod Pages
pub mod Images
pub mod Prints
pub mod Kernels
pub mod Mappings
pub mod Tables
pub mod Devices
