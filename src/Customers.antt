-- ===== src/Customers.antt =====
-- backend/app/modules/customers: the customers of a company, their references and their managers.
pub mod Service
