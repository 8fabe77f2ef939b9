-- ===== src/Schema.antt =====
-- src/rule-schema.ts: the rule sets that `validateRuleSet` lets pass, read from JSON. The library's test of
-- a URL is a parameter; error messages are not modelled. A rule is read into what the rest of the service
-- reads of it.
pub mod Json
pub mod Rules
pub mod WellFormed
pub mod Validation
pub mod Releases
