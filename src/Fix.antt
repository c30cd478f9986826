-- ===== src/Fix.antt =====
-- src/ismet/fix/: the message codec.
pub mod Bytes
pub mod Message
pub mod Parse
pub mod Stream
pub mod Session
mod Results
mod BeginString
mod Frames
mod Written
mod Codec
mod Integrity
mod RoundTrip
mod Tests
mod Fields
