-- ===== src/Config.antt =====
-- internal/config: the configuration, and the clients of the other services: their
-- requests and what they make of an answer.
pub mod HttpClient
pub mod AiService
pub mod LlmService
pub mod Load
pub mod Storage
