-- ===== src/Rules/ExecuteLaws.antt =====
-- Every action of `execute` of src/rules/rule-engine.service.ts ends its execution record.
use accountos.World.{World}
