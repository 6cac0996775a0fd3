-- ===== src/Guard/Outcomes.antt =====
-- When the guard lets an action through, and what it records when it does not.
use cora_os.Prelude.{
  ℕ, ◌≡◌, ◌≢◌, ◌⊎◌, refl, inl, inr, Bool, true, false, not, ◌&&◌, some, List, [], ◌∷◌, ◌++◌, arith,
  Bool-cases, Option-cases, all,
}
use text.Mathlib.Text.{◌==◌}
use cora_os.Prelude.Exec.{Outcome, ok, err}
use cora_os.Governance.{
  ExecutionLog, GovernanceDb, RuntimeTrace, is_external_execution_tool, log_execution_attempt,
  write_runtime_trace,
}
use cora_os.Guard.{
  CheckName, Intent, GuardResult, Request, Caller, checks_of, failing, evaluate_external_execution,
  log_blocked, assert_external_execution_allowed,
}

-- What an external execution needs: the master flag, a confirmed intent that is no dry run, a connected
-- provider with a token, and an action that governance does not take for an external one.
pub record Permits (enabled : Bool) (r : Request) (i : Intent) : Type 0 where
  pub flag : enabled ≡ true
  pub given : r.intent ≡ some i
  pub confirmed : (i.status == "confirmed") ≡ true
  pub real : i.dry_run ≡ false
  pub provider : r.provider_connected ≡ true
  pub token : r.token_ready ≡ true
  pub internal : is_external_execution_tool r.action_type ≡ false

-- the record of a refusal: a row of the log and a trace, both of an attempt that was blocked
pub record Records (who : Caller) (db db' : GovernanceDb) : Type 0 where
  pub log : ExecutionLog
  pub trace : RuntimeTrace
  pub logs : db'.logs ≡ db.logs ++ log ∷ []
  pub traces : db'.traces ≡ db.traces ++ trace ∷ []
  pub policies : db'.policies ≡ db.policies
  pub refused : log.allowed ≡ false
  pub user : log.user_id ≡ who.user_id
  pub blocked : trace.status ≡ "blocked"

all-failing : (cs : List (CheckName × Bool)) → all (λ c. c.1) cs ≡ true → failing cs ≡ []
all-failing [] h = refl
all-failing (c ∷ cs) h = ground (arith, all-failing cs)

not_all-failing : (cs : List (CheckName × Bool)) → all (λ c. c.1) cs ≡ false → failing cs ≢ []
not_all-failing [] h = cc
not_all-failing (c ∷ cs) h = elim (Bool-cases c.1) [
  | inl e ↦ simp e (not_all-failing cs (simp e at h))
  | inr e ↦ simp e (λ q. cc)
]

-- the checks are those of `Permits`
permitted :
    (enabled : Bool) (r : Request)
    → all (λ c. c.1) (checks_of enabled r) ≡ true
    → (i : Intent) × Permits enabled r i
permitted enabled r h = elim (Option-cases r.intent) [
  | inl e ↦ absurd (let z : (enabled && false) ≡ true = simp e at h in ground arith)
  | inr (i, e) ↦
      let z : (enabled
            && ((i.status == "confirmed")
                && (not i.dry_run
                    && (r.provider_connected
                        && (r.token_ready
                            && (not (is_external_execution_tool r.action_type) && true))))))
          ≡ true =
        simp e at h in
      (
        i,
        record {
          flag = ground arith;
          given = e;
          confirmed = ground arith;
          real = ground arith;
          provider = ground arith;
          token = ground arith;
          internal = ground arith;
        },
      )
]

all_permitted :
    (enabled : Bool) (r : Request) (i : Intent)
    → Permits enabled r i
    → all (λ c. c.1) (checks_of enabled r) ≡ true
all_permitted enabled r i p =
    simp (p.flag, p.given, p.confirmed, p.real, p.provider, p.token, p.internal)

-- a call that lets the action through, and one that does not
pub record IsAllowed (enabled : Bool) (r : Request) (db : GovernanceDb)
    (call : Outcome GuardResult GuardResult × GovernanceDb) : Type 0 where
  pub intent : Intent
  pub permits : Permits enabled r intent
  pub result : GuardResult
  pub returns : call ≡ (ok result, db)
  pub allowed : result.allowed ≡ true
  pub unblocked : result.blockers ≡ []

pub record IsBlocked (enabled : Bool) (r : Request) (who : Caller) (db : GovernanceDb)
    (call : Outcome GuardResult GuardResult × GovernanceDb) : Type 0 where
  pub barred : ¬ ((i : Intent) × Permits enabled r i)
  pub result : GuardResult
  pub raises : call.0 ≡ err result
  pub allowed : result.allowed ≡ false
  pub blocked : result.blockers ≢ []
  pub records : Records who db call.1

log_blocked-Records :
    (who : Caller) (now : ℕ) (db : GovernanceDb)
    → db.pool ≡ true
    → Records who db (log_blocked who now db)
unfolding log_blocked log_execution_attempt write_runtime_trace
log_blocked-Records who now db up = simp up (record {
  log = _;
  trace = _;
  logs = refl;
  traces = refl;
  policies = refl;
  refused = refl;
  user = refl;
  blocked = refl;
})

-- With a connection pool, `assert_external_execution_allowed` lets an action through exactly when the
-- master flag is on, there is a confirmed intent that is no dry run, the provider is connected and has a
-- token, and governance does not take the action for an external execution. It then returns a result
-- without blockers and writes nothing. Otherwise it raises with a result that does not allow and names
-- a blocker, and the blocked attempt is one more row in the log, under the caller's user, and one more
-- trace.
pub assert_outcome :
    (enabled : Bool) (r : Request) (who : Caller) (now : ℕ) (db : GovernanceDb)
    → db.pool ≡ true
    → IsAllowed enabled r db (assert_external_execution_allowed enabled r who now db)
      ⊎ IsBlocked enabled r who db (assert_external_execution_allowed enabled r who now db)
unfolding assert_external_execution_allowed evaluate_external_execution
assert_outcome enabled r who now db up =
    let checks = checks_of enabled r in
    elim (Bool-cases (all (λ c. c.1) checks)) [
      | inl may ↦
          let p = permitted enabled r may in
          inl record {
            intent = p.0;
            permits = p.1;
            result = evaluate_external_execution enabled r;
            returns = simp may;
            allowed = may;
            unblocked = all-failing checks may;
          }
      | inr may_not ↦ inr record {
        barred = λ p. ground (arith, all_permitted enabled r p.0 p.1, may_not);
        result = evaluate_external_execution enabled r;
        raises = simp may_not;
        allowed = may_not;
        blocked = not_all-failing checks may_not;
        records = simp may_not (log_blocked-Records who now db up);
      }
    ]
