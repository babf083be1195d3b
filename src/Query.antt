-- ===== src/Query.antt =====
-- What the user queries: the interactive history, and the arguments of queries.
pub mod History
pub mod Args
pub mod Invocation
