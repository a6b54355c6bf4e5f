-- ===== src/Api.antt =====
-- The generated package order_service/internal/api: the JSON of its types, the router, the
-- parameters, the validators, the handler of a request and the client's side of a response.
pub mod Jx
pub mod Client
pub mod LoggingMiddleware
pub mod Requests
pub mod Config
pub mod Responses
pub mod Router
pub mod Params
pub mod Ogen
pub mod Validate
pub mod Schemas
pub mod Codec
pub mod Object
pub mod Required
