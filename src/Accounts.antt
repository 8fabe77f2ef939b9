-- ===== src/Accounts.antt =====
-- src/accounts/account-lifecycle.service.ts: an account is provisioned at Nomba and in the database, its
-- status is overridden by hand, and it is closed.
pub mod Operations
pub mod Machine
pub mod Outcomes
pub mod Provisioning
pub mod Refinement
