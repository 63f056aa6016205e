-- ===== src/Sales.antt =====
-- backend/app/modules/sales: the documents of the customers.
pub mod Service
