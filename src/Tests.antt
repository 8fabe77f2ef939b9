-- ===== src/Tests.antt =====
-- The theorems at concrete states, on which the source's functions run.
mod Data
mod Treasury
mod Inflows
mod Settlements
mod Rules
mod Webhooks
mod Accounts
mod Identity
mod Ledger
mod Auth
mod Intake
mod Schema
mod Nomba
