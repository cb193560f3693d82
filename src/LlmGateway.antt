-- ===== src/LlmGateway.antt =====
-- The LLM gateway, app/llm_gateway.
pub mod Circuit
pub mod Calls
pub mod Stores
pub mod Usage
pub mod Gate
pub mod Tests
pub mod GateTests
