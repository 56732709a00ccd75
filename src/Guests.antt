-- ===== src/Guests.antt =====
-- The guest's side of a table: the session that the QR code opens (guest/sessions), the shared cart
-- (guest/cart) and placing it as an order (guest/orders). The random PIN is an argument, and a
-- token is the principal that it signs. Row-level security and the unique index's answer to a
-- concurrent request are not modelled, nor are notes on a line.
pub mod Sessions
pub mod Tables
pub mod Starting
pub mod Joining
pub mod Serving
pub mod Cart
pub mod Placing
pub mod Entered
pub mod Arriving
pub mod Placed
pub mod Scaling
mod Tests
