-- ===== src/Rules.antt =====
-- src/rules: the rules of an account, their evaluation against an event, and their actions.
pub mod Matching
pub mod Engine
pub mod Release
pub mod ForeignKeys
pub mod RuleSets
pub mod EvaluationLaws
pub mod Shares
pub mod EngineLaws
pub mod ExecuteLaws
pub mod Frames
pub mod StatusLaws
pub mod ReleaseLaws
pub mod SetLaws
