-- ===== src/Protocol.antt =====
-- packages/wazeko-protocol: the binary framing of protocol nodes.
pub mod Tokens
pub mod Attributes
pub mod Node
pub mod Encoder
pub mod Decoder
pub mod Transfer
pub mod Validity
pub mod Octets
pub mod RoundTrip
pub mod Builder
pub mod Hostile
pub mod Words
pub mod Examples
