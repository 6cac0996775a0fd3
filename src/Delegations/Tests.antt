-- ===== src/Delegations/Tests.antt =====
-- Delegations of one session, and the theorems there.
use cora_os.Prelude.{◌+◌, ◌<◌, ◌≡◌, refl, true, none, some, [], ◌∷◌, length, arith}
use cora_os.Prelude.Exec.{err}
use cora_os.Prelude.Text.{codes, is_space, lstrip, strip, lower_char, lower}
use cora_os.Delegations.{
  DelegationDb, NewDelegation, create_delegation, update_delegation_status, complete_delegation,
  fail_delegation, parse_status, parse_initial, active_count, list_delegations, get_delegation,
  depth_exceeded, self_delegation, check_new, insert_new, running, count_active, max_active,
}
use cora_os.Delegations.Race.{
  Admitted, RaceWorld, Reach, here, next, count, insert, Reach-bound_race,
}

runs : Unit {0}
unfolding is_space lstrip strip lower_char lower check_new insert_new create_delegation
    update_delegation_status complete_delegation fail_delegation parse_status parse_initial
    active_count list_delegations get_delegation
runs = tt

abbrev empty : DelegationDb
empty = record { pool = true; delegations = []; traces = [] }

abbrev work : NewDelegation
work = record {
  from_agent = codes "ATLAS";
  to_agent = codes " SCRIBE ";
  delegation_reason = none;
  session_id = some 4;
  execution_plan_id = some 9;
  workspace_id = none;
  input_payload = none;
  user_id = some 7;
  initial_status = "running";
}

abbrev three : DelegationDb
three = (create_delegation 3 work (create_delegation 2 work (create_delegation 1 work empty).1).1).1

fourth_refused : (create_delegation 4 work three).0 ≡ err depth_exceeded
unfolding runs
fourth_refused = refl

own_refused :
    (create_delegation 4 (record work { to_agent = codes "Atlas" }) empty).0 ≡ err self_delegation
unfolding runs
own_refused = refl

room_again :
    length (
      list_delegations 10 0
        (some 4)
        none
        none
        "completed"
        (complete_delegation 2 none none 30 three).1)
    ≡ 1
unfolding runs
room_again = refl

abbrev idle : RaceWorld
idle = record { db = empty; between = [] }

abbrev held : Admitted
held = record { request = work; status = running }

-- one call after the other
abbrev serial : RaceWorld
serial = record { db = (create_delegation 1 work empty).1; between = [] }

path : Reach 1 idle serial
unfolding runs
path = next (next here (count work (omega arith))) (insert [] [] held 1 refl refl)

Reach-bound_race_example : count_active (some 4) none serial.delegations < max_active + 1
unfolding runs
Reach-bound_race_example =
    Reach-bound_race 1 {u = idle} {w = serial} 4 none (omega arith) refl
      record { bound = λ s p. omega arith } path

-- two calls that both count two active delegations, and then both insert
abbrev two : DelegationDb
two = (create_delegation 2 work (create_delegation 1 work empty).1).1

abbrev four : RaceWorld
four = record { db = (insert_new 4 work running (insert_new 3 work running two).1).1; between = [] }

race : Reach 2 record { db = two; between = [] } four
unfolding runs
race =
    next
      (next (next (next here (count work (omega arith))) (count work (omega arith)))
        (insert [] (held ∷ []) held 3 refl refl))
      (insert [] [] held 4 refl refl)

race_exceeds : count_active (some 4) none four.delegations ≡ 4
unfolding runs
race_exceeds = refl
