-- ===== src/Lib.antt =====
-- The core of the customer service backend in app/: what stands between a conversation and the
-- language model, what bounds it, and where the knowledge of its answers comes from. The application
-- answers each user turn through a graph of agents; every call of a model goes through one gateway,
-- every conversation holds a lock and a slot while it runs and keeps its checkpoints in a cache, every
-- prompt carries a window of the conversation, and a question about a course is answered from chunks
-- that a search finds in the tenant's store.
--
-- The parts, and the files that model them. Functions keep their names, without leading
-- underscores.
-- - Prelude, with Prelude/Tests, Lists, Dict, Text, Colons, Int, Order and Sort: the shared lemmas.
--   A Python dict is an association list in insertion order (Dict), a str is the list of its code
--   points (Text), with Python's order (Order), `sorted` is a stable sort by insertion (Sort).
-- - LlmGateway/Circuit (app/llm_gateway/circuit.py): the circuit breaker, one process-wide record
--   behind a lock. Proofs in Circuit/Reach, Threshold and Probe.
-- - LlmGateway/Calls (app/llm_gateway/gateway.py): the retry loop and the call through the
--   circuit. Calls/Retry and Calls/Outcomes.
-- - LlmGateway/Stores (app/llm_gateway/stores.py and types.py): the in-process store of daily
--   usage and of cached answers. Stores/Quota and Stores/Cache.
-- - LlmGateway/Usage (app/llm_gateway/gateway.py): the tokens a call is charged and the usage of a
--   turn.
-- - LlmGateway/Gate (app/llm_gateway/gateway.py): a whole call, `_gated`: quota, cache, circuit,
--   retries, charge. The code holds no lock over a call and reads the day twice; here a call is
--   one step, on one day. Gate/Laws, Keeps and Remember.
-- - ChatSlots (app/chat_slots.py): the leases of concurrent conversations. ChatSlots/Leases,
--   Invariant, Reach and RoundTrip. ChatSlots/Redis, with its children: the store that the workers
--   share, and that it is the one in the process, seen from outside.
-- - SessionLock (app/session_cache.py): one turn at a time per conversation, in a process
--   (SessionLock/Local), among the workers (Exclusion), and the wait for it (Wait).
-- - SessionCache (app/session_cache.py): the envelope of checkpoints and the cached checkpointer over
--   langgraph's InMemorySaver. SessionCache/RoundTrip, and SessionCache/Saver with its children.
-- - Context/Messages and Context/Window (app/context/window.py): the window of recent messages
--   under a token budget. Window/Pick and Window/Laws. Context/Prompt: the history as a prompt
--   shows it.
-- - OrderAccess (app/security/order_access.py, app/memory.py): who may see which order.
--   OrderAccess/Scope and Authorize.
-- - Policy/Types, Route, Plan and Graph (app/schemas.py, app/agents/policy.py,
--   app/graph/builder.py): from a recognised intent to the node that answers and the plan of the
--   supervisor. Policy/Slots (app/context/slots.py): what a follow-up inherits.
-- - Summary (app/context/summary/facts.py): the facts of the rolling summary. Summary/Exclusive,
--   Latest, Merge and Render.
-- - Retrieval (app/rag/vectorstore.py, chunking.py): a chunk of course knowledge and what is read off
--   it. Retrieval/Plan (app/rag/retrieval_plan.py, rewrite.py): how many chunks to fetch, and the
--   rewrite of a query. Retrieval/Search: the vector and the lexical search (app/rag/vectorstore.py,
--   lexical.py); Retrieval/Fusion: reciprocal rank fusion (app/rag/lexical.py), with Fusion/Ranks;
--   Search/Hits and Search/Tenant: from both to the hits (app/rag/vectorstore.py, reranker.py); proofs
--   in Search/Own, Kept, Ranked and Safe. Retrieval/Expand, with Best and Covers: from the hits to the
--   context. Retrieval/Trim, with Bounds and Top: the cut to a token budget. Retrieval/Ingest: the
--   incremental ingest of a tenant, with Ingest/Hashes, Planned, Fresh and Whole.
-- - ToolCache (app/tool_cache.py): the cache of tool results, with ToolCache/Keys and Orders. ThreadId
--   (app/thread_id.py): the key of a conversation.
-- - The modules named Tests and GateTests run the models on small inputs.
--
-- Conventions. Times are natural numbers of ticks, and a difference of times is written as a sum.
-- The clock, the day, new tokens, the token counter, the byte codec, the SHA-256 fingerprint, the
-- answers of the upstream model, the commands of the Redis server, FAISS, jieba, BM25Plus, the
-- cross-encoder and floats are arguments. State is passed explicitly; a function that
-- works on its state under one lock is one atomic step, and orders of calls are lists of steps or
-- an inductive relation of reachable states. Exceptions are values. A confidence is a number of
-- hundredths. The query that gives one row of a table and the digit class of a regular expression
-- are arguments. Async functions that repeat their sync twins behind `await` share one definition.
--
-- Bounds. The retry loop runs on the number of attempts that are left, max(1, retries + 1), as the
-- code's `range` does, so no other fuel is needed. The loop that shortens a summary gets one round
-- more than the summary has facts; each round drops one, so that is enough (Summary/Render). The wait
-- for a lock gets one round more than there are ticks until its deadline (SessionLock/Wait).
-- Everything else is structural recursion.
--
-- Not modelled: log lines and metrics (except the events the breaker counts and the errors the
-- retry loop reports, and the audit log of refused orders), the Redis store of daily usage and
-- answers, the connections to Redis, streaming calls, SQL, prompts, the files of the indexes and
-- their revisions, the split of Markdown into chunks, the Redis store of tool results and the HTTP
-- layer. Negative thresholds and quotas are read as 0, which the code treats the same way.
pub mod ChatSlots
pub mod Context
pub mod LlmGateway
pub mod OrderAccess
pub mod Policy
pub mod Prelude
pub mod Retrieval
pub mod SessionLock
pub mod SessionCache
pub mod Summary
pub mod ThreadId
pub mod ToolCache
