-- ===== src/Parameter/Saves.antt =====
-- parameter.c: the functions that set values and save the settings, by what they set.
pub mod Camera
pub mod Device
pub mod Unsaved
pub use Camera.*
pub use Device.*
pub use Unsaved.*
