-- ===== src/Api.antt =====
-- api/: the request and response bodies of `POST /query` and `GET /status`, and their conversions.
pub mod Dto
pub mod Bounds
pub mod Handlers
pub mod Recorded
