-- ===== src/Abi.antt =====
-- src/abi: the calls of the decoders and of the IDNA functions of the operating system. Decode is the
-- decoding of charsets, Idna the ASCII form of host names, Queries the reading of headers and options;
-- Fallback is about the first, TwoCalls about the last.
pub mod Decode
pub mod Idna
pub mod Queries
pub mod Fallback
mod TwoCalls
