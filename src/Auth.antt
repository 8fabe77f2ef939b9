-- ===== src/Auth.antt =====
-- src/auth/auth.service.ts with src/common/utils/crypto.utils.ts: the encrypted credentials of a business,
-- and its API keys.
pub mod Crypto
pub mod Businesses
pub mod Keys
pub mod CredentialLaws
pub mod KeyLaws
