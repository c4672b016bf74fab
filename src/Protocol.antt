-- ===== src/Protocol.antt =====
-- src/session/sf4e__SessionProtocol.hxx and .cxx, and src/Dimps/Dimps__Wire.hxx: the data that
-- clients and server exchange.
mod Types
mod Messages
mod Snapshots
unfoldable pub use Types.*
pub use Messages.*
unfoldable pub use Snapshots.*
