-- ===== src/Agent/Words.antt =====
-- apps/cora-api/app/agent_runtime.py: reading a yes or a no off an utterance (`classify_confirmation`
-- and its three regular expressions). An optional part of an alternative is written_row out as two
-- alternatives. Letters are those of ASCII.
use cora_os.Prelude.{
  ℕ, String, Bool, true, false, not, ◌&&◌, ◌||◌, Option, none, some, List, [], ◌∷◌, any, ◌==◌, leb,
  if◌then◌else◌,
}
use cora_os.Prelude.Text.{Text, codes, strip, lstrip, lower, text_eq, starts_with}

-- `\w` of one code point
abbrev is_word : ℕ → Bool
is_word c = (leb 48 c && leb c 57) || (leb 65 c && leb c 90) || (leb 97 c && leb c 122) || c == 95

-- the text does not go on with a letter: `\b` after a letter
abbrev at_end : Text → Bool
at_end [] = true
at_end (c ∷ t) = not (is_word c)

abbrev after : Text → Text → Text
after t [] = t
after [] (_ ∷ _) = []
after (c ∷ t) (_ ∷ p) = after t p

-- the text begins with the words, and a letter does not follow
abbrev opens_with : Text → String → Bool
opens_with t p = starts_with t (codes p) && at_end (after t (codes p))

-- `never\s*mind`
abbrev never_mind : Text → Bool
never_mind t = starts_with t (codes "never") && opens_with (lstrip (after t (codes "never"))) "mind"

-- `_AFFIRM_RE`
abbrev affirmations : List String
affirmations =
    "yes" ∷ "yep" ∷ "yeah" ∷ "yup" ∷ "ya" ∷ "sure" ∷ "ok" ∷ "okay" ∷ "do it" ∷ "go ahead"
    ∷ "go for it" ∷ "please do" ∷ "confirm" ∷ "confirmed" ∷ "approve" ∷ "approved" ∷ "sounds good"
    ∷ "thats right" ∷ "that's right" ∷ "correct" ∷ "affirmative" ∷ "absolutely" ∷ "definitely" ∷ []

-- `_DENY_RE`; its "cancel that" begins with "cancel"
abbrev denials : List String
denials =
    "no" ∷ "nope" ∷ "nah" ∷ "dont" ∷ "don't" ∷ "do not" ∷ "cancel" ∷ "stop" ∷ "reject" ∷ "forget it"
    ∷ "abort" ∷ "hold off" ∷ "not now" ∷ "negative" ∷ "leave it" ∷ []

-- `_OVERRIDE_RE`; its other alternatives contain "anyway"
abbrev override_words : List String
override_words = "override" ∷ "anyway" ∷ "im sure" ∷ "i'm sure" ∷ "yes really" ∷ []

-- The search: `start` says that the code point before is not one of a word.
abbrev searched : Bool → Text → Bool
searched start [] = false
searched start (c ∷ t) =
    (start && any (opens_with (c ∷ t)) override_words) || searched (not (is_word c)) t

-- `_OVERRIDE_RE.search`
unfoldable pub has_override : Text → Bool
has_override t = searched true (lower t)

-- `_DENY_RE.match`
unfoldable pub is_denial : Text → Bool
is_denial t = let u = lstrip (lower t) in any (opens_with u) denials || never_mind u

-- `_AFFIRM_RE.match`
unfoldable pub is_affirmation : Text → Bool
is_affirmation t = any (opens_with (lstrip (lower t))) affirmations

pub data ConfirmDecision : Type 0 where
  approve reject : ConfirmDecision

abbrev is_none : Text → Bool
is_none [] = true
is_none (_ ∷ _) = false

-- `classify_confirmation`
unfoldable pub classify_confirmation : Text → Option ConfirmDecision
classify_confirmation text =
    let t = strip text in
    if is_none t
    then none
    else if has_override t
    then some approve
    else if is_denial t
    then some reject
    else if is_affirmation t
    then some approve
    else none

-- the word of a decision, stripped and in lower case
unfoldable pub parse_decision : Text → Option ConfirmDecision
parse_decision text =
    let t = lower (strip text) in
    if text_eq t (codes "approve")
    then some approve
    else if text_eq t (codes "reject")
    then some reject
    else none

abbrev pub word_of : ConfirmDecision → Text
word_of approve = codes "approve"
word_of reject = codes "reject"
