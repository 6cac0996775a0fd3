-- ===== src/Governance/Limits.antt =====
-- The hourly limit of a policy, and what a blocked attempt leaves in the log.
use cora_os.Prelude.{
  ℕ, ◌+◌, ◌≤◌, ◌≡◌, inl, inr, Bool, true, Option, none, some, List, [], ◌∷◌, ◌++◌, arith,
  Bool-cases, if◌then◌else◌,
}
use cora_os.Prelude.Text.{Text}
use cora_os.Governance.{
  Tool, Policy, ExecutionLog, GovernanceDb, fetch_policy, count_recent_executions, count_logs,
  is_counted, check_permission, log_execution_attempt,
}
use cora_os.Governance.Decision.{agent_may, policy_may, has_room, check_permission_exact}

count_logs-append :
    (p : ExecutionLog → Bool) (ls : List ExecutionLog) (l : ExecutionLog)
    → count_logs p (ls ++ l ∷ []) ≡ count_logs p ls + (if p l then 1 else 0)
count_logs-append p [] l = ground arith
count_logs-append p (x ∷ ls) l = ground (arith, count_logs-append p ls l)

count-log_execution_attempt :
    (l : ExecutionLog) (tool : Text) (since : ℕ) (user : Option ℕ) (agent : Option Text)
    (db : GovernanceDb)
    → count_recent_executions tool since user agent (log_execution_attempt l db)
      ≤ count_recent_executions tool since user agent db + 1
unfolding count_recent_executions log_execution_attempt
count-log_execution_attempt l tool since user agent db = elim (Bool-cases db.pool) [
  | inl up ↦
      simp up (ground (arith, count_logs-append (is_counted tool since user agent) db.logs l))
  | inr down ↦ simp down (omega arith)
]

-- When `check_permission` allows an agent's call under a policy with an hourly limit, the agent's
-- executions of the tool in the hour are within the limit once the call is logged as well.
pub rate_limit_kept :
    (t : Tool) (agent : Text) (is_admin : Bool) (since : ℕ) (db : GovernanceDb) (p : Policy) (m : ℕ)
    (l : ExecutionLog)
    → (check_permission t (some agent) is_admin since db).allowed ≡ true
    → fetch_policy t.name agent db ≡ some p
    → p.max_calls_per_hour ≡ some m
    → count_recent_executions t.name since none (some agent) (log_execution_attempt l db) ≤ m
unfolding agent_may
rate_limit_kept t agent is_admin since db p m l h f q =
    let room : policy_may t agent is_admin since db (fetch_policy t.name agent db) ≡ true =
      ground (arith, check_permission_exact t (some agent) is_admin since db) in
    let room' : policy_may t agent is_admin since db (some p) ≡ true = rw f at room in
    let room'' : has_room (count_recent_executions t.name since none (some agent) db) (some m)
        ≡ true =
      ground (arith, q) in
    ground (arith, count-log_execution_attempt l t.name since none (some agent) db)
