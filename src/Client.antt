-- ===== src/Client.antt =====
-- client/: the URLs (`Url`) and the requests (`Requests`) of the base HTTP client of
-- client/http.go, and the connections of client/grpc.go (`Dial`); `ServiceErrors` puts a client and a handler together.
pub mod Url
pub mod Requests
pub mod ServiceErrors
pub mod Dial
