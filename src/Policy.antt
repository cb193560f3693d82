-- ===== src/Policy.antt =====
-- What happens between the recognition of an intent and the node that answers: app/agents/policy.py,
-- app/context/slots.py and the edges of app/graph/builder.py.
pub mod Types
pub mod Route
pub mod Plan
pub mod Graph
pub mod Slots
pub mod Tests
