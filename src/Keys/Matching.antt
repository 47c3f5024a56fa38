-- ===== src/Keys/Matching.antt =====
-- secrets/rnp/rnpkeys.cpp, `matchRule` and the loops over a filter in `RnpKeys::findSecrets`.
pub mod Laws
pub mod Rules
use sailfish_crypto_plugins.Common.{
  ℕ, String, Bool, true, false, Option, none, some, List, [], ◌∷◌, ◌++◌, ◌||◌, str_eq, lookup,
  if◌then◌else◌,
}
use sailfish_crypto_plugins.Host.{Host, Bytes, Algorithm, algorithm_unknown, CryptoKey}

pub data FilterOperator : Type 0 where
  operator_or operator_and : FilterOperator

contains : List String → String → Bool
contains [] value = false
contains (x ∷ xs) value = if str_eq x value then true else contains xs value

lists_email : Host → String → Option String → Bool
unfolding contains
lists_email H value none = false
lists_email H value (some emails) = contains (H.split_commas emails) value

has_text : String → Option String → Bool
has_text value none = false
has_text value (some text) = str_eq text value

is_unknown : Algorithm → Bool
is_unknown algorithm_unknown = true
is_unknown _ = false

-- matchRule
unfoldable pub match_rule : Host → List (String × String) → Algorithm → String → String → Bool
unfolding lists_email has_text is_unknown
match_rule H key_data algorithm filter value =
    if str_eq filter "email"
    then lists_email H value (lookup "User-Emails" key_data)
    else if str_eq filter "canSign"
    then true
    else if str_eq filter "canEncrypt"
    then is_unknown algorithm
    else has_text value (lookup filter key_data)

-- The loops over the filter, which end with the first rule that decides.
pub match_or : Host → CryptoKey → List (String × String) → Bool
match_or H key [] = false
match_or H key ((filter, value) ∷ rest) =
    if match_rule H key.filter_data key.algorithm filter value then true else match_or H key rest

pub match_and : Host → CryptoKey → List (String × String) → Bool
match_and H key [] = true
match_and H key ((filter, value) ∷ rest) =
    if match_rule H key.filter_data key.algorithm filter value then match_and H key rest else false

-- The switch over the operator.
unfoldable pub matches : Host → FilterOperator → CryptoKey → List (String × String) → Bool
unfolding match_or match_and
matches H operator_or key filter = match_or H key filter
matches H operator_and key filter = match_and H key filter
