-- ===== src/Logo.antt =====
-- assets/logo/gen.py: the mark, its intro and the assets that are cut from them. `png_crop` is in Raster.
--
-- The numbers are Python's floats, of which the model has the operations and no law (`Number`); a
-- theorem that needs one has it as a hypothesis.
pub mod Number
pub mod Colours
pub mod Atoms
pub mod Solid
pub mod Camera
pub mod Clock
pub mod Intro
pub mod Sort
pub mod Frame
pub mod Markup
pub mod Drawing
pub mod Small
pub mod Derived
pub mod Outputs
pub mod Rasters
mod Tests
