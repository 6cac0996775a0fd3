-- ===== src/Routing/Tests.antt =====
-- Messages for one specialist, for several and for none, and an instance of the result.
use cora_os.Prelude.{ℕ, ◌≡◌, refl, Bool, ◌&&◌, ◌||◌, leb, ◌==◌, [], ◌∷◌}
use cora_os.Prelude.Text.{codes, lower_char, lower}
use cora_os.Routing.{default_candidates, match_keywords, select_from, select_subagent}
use cora_os.Routing.Best.{IsChoice, matched_of, select_subagent-IsChoice}

runs : Unit {0}
unfolding lower_char lower match_keywords select_from select_subagent
runs = tt

-- the letters of words in ASCII
abbrev is_letter : ℕ → Bool
is_letter c = (leb 48 c && leb c 57) || (leb 65 c && leb c 90) || c == 95 || (leb 97 c && leb c 122)

longer_wins :
    select_subagent is_letter (codes "A stakeholder update on the NEWS") []
    ≡ record { name = codes "SIGNAL"; matched = codes "stakeholder update" ∷ [] }
unfolding runs
longer_wins = refl

within_a_word :
    select_subagent is_letter (codes "decode it") [] ≡ record { name = codes "Cora"; matched = [] }
unfolding runs
within_a_word = refl

override_taken :
    select_subagent is_letter
      (codes "decode it")
      (record { name = codes "CHRONOS"; keywords = codes "decode" ∷ [] } ∷ [])
    ≡ record { name = codes "CHRONOS"; matched = codes "decode" ∷ [] }
unfolding runs
override_taken = refl

select_subagent-IsChoice_example :
    IsChoice
      (matched_of is_letter (codes "compare two docker images") [])
      default_candidates
      (select_subagent is_letter (codes "compare two docker images") [])
select_subagent-IsChoice_example =
    select_subagent-IsChoice is_letter (codes "compare two docker images") []
