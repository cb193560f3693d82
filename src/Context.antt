-- ===== src/Context.antt =====
-- The conversation context, app/context: messages, the window over them, and the text of a prompt.
pub mod Messages
pub mod Window
pub mod Prompt
pub mod Tests
