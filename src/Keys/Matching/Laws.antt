-- ===== src/Keys/Matching/Laws.antt =====
-- secrets/rnp/rnpkeys.cpp: what the loops over a filter decide.
use sailfish_crypto_plugins.Common.{String, ◌≡◌, refl, Bool, List, [], ◌∷◌, any, all, arith}
use sailfish_crypto_plugins.Host.{Host, CryptoKey}
use sailfish_crypto_plugins.Keys.Matching.{
  FilterOperator, operator_or, operator_and, match_rule, match_or, match_and, matches,
}

abbrev pub rule : Host → CryptoKey → String × String → Bool
rule H key (filter, value) = match_rule H key.filter_data key.algorithm filter value

-- Some rule of the filter holds, or each of them does.
abbrev pub decided : Host → FilterOperator → CryptoKey → List (String × String) → Bool
decided H operator_or key filter = any (rule H key) filter
decided H operator_and key filter = all (rule H key) filter

match_or_lem :
    (H : Host) (key : CryptoKey) (filter : List (String × String))
    → match_or H key filter ≡ any (rule H key) filter
unfolding match_or
match_or_lem H key [] = refl
match_or_lem H key ((f, v) ∷ rest) = rw (match_or_lem H key rest) (ground arith)

match_and_lem :
    (H : Host) (key : CryptoKey) (filter : List (String × String))
    → match_and H key filter ≡ all (rule H key) filter
unfolding match_and
match_and_lem H key [] = refl
match_and_lem H key ((f, v) ∷ rest) = rw (match_and_lem H key rest) (ground arith)

-- A key matches a filter under `OperatorOr` if one of its rules holds of the key, under
-- `OperatorAnd` if all of them do; without rules it matches under `OperatorAnd` only.
pub matches_lem :
    (H : Host) (operator : FilterOperator) (key : CryptoKey) (filter : List (String × String))
    → matches H operator key filter ≡ decided H operator key filter
unfolding matches
matches_lem H operator_or key filter = match_or_lem H key filter
matches_lem H operator_and key filter = match_and_lem H key filter
