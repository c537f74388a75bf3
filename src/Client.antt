-- ===== src/Client.antt =====
-- The clients of the two upstream services: include/ai, src/ai, include/agent, src/agent. libcurl
-- and the JSON library are parameters.
pub mod Curl
pub mod Model
pub mod Agent
mod Tests
