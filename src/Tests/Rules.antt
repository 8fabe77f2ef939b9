-- ===== src/Tests/Rules.antt =====
-- The theorems on src/rules, at concrete states.
use accountos.Rules.SetLaws.{Archived, Replaced, delete_rule-Archived, replace_rule_set-Replaced}
use accountos.Rules.StatusLaws.{execute-accounts}
use accountos.Rules.EngineLaws.{transition}
use accountos.World.{
  release_funds, suspend_account, World, parallel, exec_completed, inflow_received, other_error,
}
use accountos.Tests.Data.{
  condition, empty_world, account, event, suspend_rule, trigger_entry, payload, release_rule,
  funded, operations,
}
use accountos.Rules.Shares.{enforce_percentage_sum-total_share, total_share}
use accountos.Rules.EvaluationLaws.{IsOrdered, evaluate_parallel, sorted, fired}
use accountos.Rules.ReleaseLaws.{allocate_once, execute-IsSound}
use accountos.Rules.Matching.{
  evaluate, active_rules, insert_by_priority, select_matching, matches, inflow_matches,
}
use accountos.Rules.RuleSets.{
  toggle_rule, replace_rule_set, delete_rule, RuleInput, enforce_percentage_sum, total_percentage,
}
use accountos.Rules.Engine.{
  Deliver, find_execution, complete_execution, update_execution, set_execution,
}
use accountos.Rules.Release.{new_execution, execute, allocate, credit_from}
use accountos.Treasury.Allocation.{Aborts, credit, run_serializable, credit_body}
use accountos.Treasury.Entries.{find_reference, compute_balance, create_entry}
use accountos.Treasury.Balance.{IsSound}
use accountos.Prelude.{false, true, ◌≤ℤ◌, none, [], ◌∷◌, pos, refl, some, ◌≡◌, ◌+ℤ◌, ◌-ℤ◌}

abbrev accepting : Deliver
accepting url body = true

evaluate_parallel_example :
    (evaluate "acc" parallel event empty_world.rules ≡ sorted (fired "acc" event empty_world.rules))
    × IsOrdered (evaluate "acc" parallel event empty_world.rules)
evaluate_parallel_example = evaluate_parallel "acc" event empty_world.rules

-- Both rules fire, and the one of the lower priority comes first.
evaluated : evaluate "acc" parallel event empty_world.rules ≡ suspend_rule ∷ release_rule ∷ []
unfolding evaluate active_rules insert_by_priority select_matching matches inflow_matches
evaluated = refl

abbrev forty_percent : RuleInput
forty_percent = record {
  trigger = inflow_received;
  condition = some condition;
  action = release_funds;
  payload = some payload;
  priority = none;
}

enforce_percentage_sum-total_share_example :
    total_share (forty_percent ∷ forty_percent ∷ []) (pos 999) ≤ℤ pos 999
unfolding enforce_percentage_sum total_percentage
enforce_percentage_sum-total_share_example =
    enforce_percentage_sum-total_share (forty_percent ∷ forty_percent ∷ []) 999 empty_world
      empty_world refl

execute-accounts_example :
    (execute accepting [] "x1" suspend_rule account trigger_entry funded).1.accounts
    ≡ transition "acc" suspend_account funded.accounts
execute-accounts_example =
    execute-accounts accepting [] "x1" suspend_rule account trigger_entry funded

execute-IsSound_example :
    IsSound
      (execute accepting [] "x1" release_rule account trigger_entry empty_world).1.bucket_entries
execute-IsSound_example =
    execute-IsSound accepting [] "x1" release_rule account trigger_entry empty_world tt

abbrev recorded : World
recorded = record funded { executions = new_execution "x1" release_rule account trigger_entry ∷ [] }

abbrev gives_up : Aborts
gives_up = some other_error ∷ []

abbrev allocated_world : World
allocated_world = (allocate [] "x1" account trigger_entry operations (pos 200) recorded).1

allocate_once_example :
    (allocate [] "x2" account trigger_entry operations (pos 300) allocated_world).1.bucket_entries
    ≡ allocated_world.bucket_entries
unfolding find_execution allocate credit_from credit run_serializable credit_body find_reference
    compute_balance create_entry complete_execution update_execution set_execution ◌+ℤ◌ ◌-ℤ◌
allocate_once_example =
    allocate_once [] [] "x1" "x2" account account trigger_entry operations (pos 200) (pos 300)
      recorded allocated_world
      (record { rule_execution_id = "x1"; status = exec_completed; attempt = none }) refl refl refl

replace_rule_set-Replaced_example :
    Replaced
      (λ n. "new")
      account
      (forty_percent ∷ [])
      empty_world
      (replace_rule_set (λ n. "new") account none (forty_percent ∷ []) empty_world)
replace_rule_set-Replaced_example =
    replace_rule_set-Replaced (λ n. "new") account none (forty_percent ∷ []) empty_world

delete_rule-Archived_example :
    Archived "cust-001" "rule" "biz" empty_world (delete_rule "cust-001" "rule" "biz" empty_world)
    × Archived "cust-001" "rule" "biz" empty_world
        (toggle_rule "cust-001" "rule" "biz" false empty_world)
delete_rule-Archived_example = delete_rule-Archived "cust-001" "rule" "biz" empty_world
