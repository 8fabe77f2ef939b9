-- ===== src/Treasury.antt =====
-- The treasury: src/treasury.
pub mod Entries
pub mod Balance
pub mod Credits
pub mod Allocation
pub mod Buckets
pub mod Transfers
pub mod Settlements
pub mod Keys
pub mod Movements
pub mod TransferLaws
pub mod Withdrawals
pub mod WithdrawalLaws
pub mod Reservations
pub mod InternalSettlement
pub mod Lifecycle
pub mod SettlementLaws
pub mod SelfSettlement
