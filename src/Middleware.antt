-- ===== src/Middleware.antt =====
-- middleware/: the HTTP middlewares and the gRPC interceptors.
pub mod RequestId
pub mod Logging
pub mod Recovery
pub mod Chain
pub mod Correlation
pub mod Cors
pub mod Grpc
pub mod Timeout
