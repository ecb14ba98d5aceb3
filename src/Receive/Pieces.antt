-- ===== src/Receive/Pieces.antt =====
-- A reply that comes in over several calls of `gp_receiv` of src/gp_layer.c, piece by piece.
pub mod Filled
pub mod Step
pub mod Whole
