-- ===== src/Nfs3.antt =====
-- NFSv3 on the wire: the encoders and decoders of basic types (mynfs/nfs3xdr.c).
pub mod Stream
pub mod Basic
pub mod Attributes
pub mod RoundTrip
pub mod Calls
mod Examples
