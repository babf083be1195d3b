-- ===== src/Control.antt =====
-- The run of controls: their rows, groups, progress and colours, and the tree that holds them.
pub mod Results
pub mod Colors
pub mod Groups
pub mod Progress
pub mod Run
pub mod Tree
