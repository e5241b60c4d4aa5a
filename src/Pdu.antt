-- ===== src/Pdu.antt =====
-- src/pdu.rs: the typed PDUs of CMPP 2.0, their binary encoding and decoding.
pub mod Bytes
pub mod Reader
pub mod Fields
pub mod Reads
pub mod Connect
pub mod Submit
pub mod Deliver
pub mod Message
pub mod WellFormed
pub mod Bodies
pub mod Encode
pub mod Lengths
pub mod RoundTrip
pub mod Safety
pub mod Total
pub mod Reports
pub mod Clock
