-- ===== src/Solcom.antt =====
-- solcomapi/src: the byte buffer, the ring buffer, the wire format, and the two ends of a
-- connection.
pub mod ByteArray
pub mod CachedBuffer
pub mod Codec
pub mod Api
pub mod Server
mod Tests
