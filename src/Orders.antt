-- ===== src/Orders.antt =====
-- orders.c and orders.h: the drawing orders, which update the last order of their kind and draw it.
pub mod Runs
pub mod State
pub mod Fields
pub mod Blits
pub mod Shapes
pub mod Points
pub mod Draw
pub mod Dispatch
pub mod Pictures
pub mod Brushes
pub mod Handlers
pub mod BrushPixels
pub mod BottomUp
pub mod Repeats
pub mod PointBounds
pub mod Secondary
pub mod Coordinates
