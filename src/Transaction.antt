-- ===== src/Transaction.antt =====
-- src/transaction and include/transaction: a transaction's own state, and the manager of all.
pub mod Transaction
pub mod TransactionManager
pub mod Tests
