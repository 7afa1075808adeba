-- ===== src/Device.antt =====
-- src/Device.cpp and include/aspl/Device.hpp: the parts of a device that keep state.
pub mod Accessors
pub mod Attributes
pub mod Configuration
pub mod Io
pub mod Clock
pub mod Clients
mod Tests
pub mod Streams
pub mod Controls
