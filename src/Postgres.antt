-- ===== src/Postgres.antt =====
-- The PostgreSQL protocol of mindsdb/api/postgres/postgres_proxy: messages, packets, the connection.
pub mod Numbers
pub mod Builder
pub mod Backend
pub mod Reader
pub mod Frontend
pub mod Text
pub mod Answers
pub mod Executor
pub mod Startup
pub mod Proxy
pub mod Handlers
pub mod Connection
mod Examples
