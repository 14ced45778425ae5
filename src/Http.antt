-- ===== src/Http.antt =====
-- internal/delivery/http
pub mod ErrorHandler
pub mod Auth
pub mod Request
pub mod Upload
pub mod Controllers
pub mod Routes
