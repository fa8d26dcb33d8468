-- ===== src/Platform.antt =====
-- shared/platform: what the services share of gRPC and of the calls between them.
pub mod Grpc
pub mod InternalCall
pub mod Signatures
pub mod Serving
mod Tests
