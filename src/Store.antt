-- ===== src/Store.antt =====
-- server/store: the tables, the queries and the transactions of the server's database.
pub mod Rows
pub mod Queries
pub mod Registry
pub mod Tx
pub mod Access
pub mod Laws
