-- ===== src/Proto.antt =====
-- src/proto: the wire protocol. A frame is a list of bytes; `Wire` has the primitives, `Meta` the
-- cluster metadata, `Request` and `Response` the messages, `Frame` the header and the length field.
pub mod Result
pub mod Utf8
pub mod Wire
pub mod Codes
pub mod Records
pub mod Meta
pub mod Request
pub mod Response
pub mod Prefix
pub mod Frame
pub mod Stream
mod Tests
