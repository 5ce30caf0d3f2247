-- ===== src/Wire.antt =====
-- The MySQL wire protocol of mindsdb/api/mysql/mysql_proxy: values, packets, the handshake,
-- commands, statements.
pub mod Text
pub mod Datum
pub mod Packet
pub mod Statements
pub mod Command
pub mod Rows
pub mod Replies
pub mod Handshake
pub mod Connection
mod Examples
