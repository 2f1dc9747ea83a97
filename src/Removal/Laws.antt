-- ===== src/Removal/Laws.antt =====
-- The order of a removal.
pub mod Traces
pub mod Protocol
pub mod Recording
pub mod Ends
pub mod Order
