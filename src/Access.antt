-- ===== src/Access.antt =====
-- Role-based access control: src/cywl_oopz/features/access/.
pub mod Models
pub mod Policy
pub mod Service
pub mod Administration
pub mod Roles
pub mod Visibility
pub mod Grants
