-- ===== src/Switches/Effect.antt =====
-- What setting and clearing a switch does to the effective values.
use cora_os.Prelude.{ℕ, ◌≡◌, refl, Bool, true, some, List, [], ◌∷◌, arith, if◌then◌else◌}
use cora_os.Prelude.Exec.{ok}
use cora_os.Governance.{write_runtime_trace}
use cora_os.Switches.{
  SwitchName, calendar_execution_enabled, screen_vision_enabled, Override, SwitchDb, same_name,
  find_override, upsert, effective, get_all, set_switch,
}

-- the two switches that an administrator may change
pub data Managed : Type 0 where
  calendar vision : Managed

abbrev pub name_of : Managed → SwitchName
name_of calendar = calendar_execution_enabled
name_of vision = screen_vision_enabled

find-upsert :
    (new : Override) (m : Managed) (k : SwitchName) (rows : List Override)
    → new.name ≡ name_of m
    → find_override k (upsert new rows)
      ≡ (if same_name (name_of m) k then some new else find_override k rows)
find-upsert new m k [] e = ground (arith, e)
find-upsert new calendar k (o ∷ rows) e = ground (arith, e, find-upsert new calendar k rows e)
find-upsert new vision k (o ∷ rows) e = ground (arith, e, find-upsert new vision k rows e)

rows-set_switch :
    (settings : SwitchName → Bool) (m : Managed) (db : SwitchDb) (enabled : Bool) (admin now : ℕ)
    → db.pool ≡ true
    → ((set_switch settings (name_of m) enabled admin now db).1.overrides
        ≡ upsert
            record { name = name_of m; enabled = enabled; updated_by = admin; updated_at = now }
            db.overrides)
      × ((set_switch settings (name_of m) enabled admin now db).1.pool ≡ true)
unfolding set_switch get_all write_runtime_trace
rows-set_switch settings calendar db enabled admin now up = (simp up, simp up)
rows-set_switch settings vision db enabled admin now up = (simp up, simp up)

module _ (settings : SwitchName → Bool) (m : Managed) (db : SwitchDb) (up : db.pool ≡ true) where
  -- With a connection pool, setting a manageable switch makes that value its effective one, and leaves
  -- the effective value of every other switch alone.
  pub set_switch_effect :
      (k : SwitchName) (enabled : Bool) (admin now : ℕ)
      → (effective settings k (set_switch settings (name_of m) enabled admin now db).1).0
        ≡ (if same_name (name_of m) k then ok enabled else (effective settings k db).0)
  unfolding effective
  set_switch_effect k enabled admin now = ground (
    arith,
    up,
    rows-set_switch settings m db enabled admin now up,
    find-upsert record { name = name_of m; enabled = enabled; updated_by = admin; updated_at = now }
        m k db.overrides refl,
  )
