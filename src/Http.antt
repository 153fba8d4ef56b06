-- ===== src/Http.antt =====
-- The HTTP layer: `HttpRequest` (pqnet/core/http/request.h, pqnet/core/http/request.cpp) and
-- `HttpResponse` (pqnet/core/http/response.h, pqnet/core/http/response.cpp) over strings of bytes, and
-- `HttpRouter` (pqnet/core/http/router.h, pqnet/core/http/router.cpp).
pub mod Strings
mod Request
mod Response
pub mod Router
pub mod Serving
pub mod Parsing
pub mod Lines
mod Scanning
mod Ordered
pub mod RoundTrip
mod Tests
mod RouterTests
