-- ===== src/Keys/Matching/Rules.antt =====
-- secrets/rnp/rnpkeys.cpp: what `matchRule` and the loops over a filter mean.
use mathlib.Core.Bool.{true≢false}
use mathlib.Core.List.{Memᴰ}
use sailfish_crypto_plugins.Common.{
  String, ◌≡◌, ◌≢◌, ◌↔◌, inl, inr, refl, sym, ap, ◌∙◌, Bool, true, Option, some, none, List, [],
  ◌∷◌, str_eq, eq_iff, lookup, Bool-cases, str_eq_apart, str_eq_differ, arith,
}
use sailfish_crypto_plugins.Host.{Host, Algorithm, algorithm_unknown, CryptoKey}
use sailfish_crypto_plugins.Keys.Matching.{
  FilterOperator, operator_or, operator_and, contains, lists_email, has_text, is_unknown,
  match_rule, match_or, match_and, matches,
}

-- What a rule asks of the key.
pub data Holds (H : Host) (key : CryptoKey) (filter value : String) : Type 0 where
  has_email :
      (emails : String)
      → filter ≡ "email"
      → lookup "User-Emails" key.filter_data ≡ some emails
      → Memᴰ value (H.split_commas emails)
      → Holds H key filter value
  any_signs : filter ≡ "canSign" → Holds H key filter value
  unknown_encrypts :
      filter ≡ "canEncrypt" → key.algorithm ≡ algorithm_unknown → Holds H key filter value
  has_value :
      filter ≢ "email"
      → filter ≢ "canSign"
      → filter ≢ "canEncrypt"
      → lookup filter key.filter_data ≡ some value
      → Holds H key filter value

-- Each rule of a filter holds.
pub data EachHolds (H : Host) (key : CryptoKey) : List (String × String) → Type 0 where
  nil : EachHolds H key []
  cons :
      {filter value : String} {rest : List (String × String)}
      → Holds H key filter value
      → EachHolds H key rest
      → EachHolds H key ((filter, value) ∷ rest)

-- What the operator asks of the rules.
pub data Satisfies (H : Host) (key : CryptoKey) (rules : List (String × String))
    : FilterOperator → Type 0 where
  by_one :
      (filter value : String)
      → Memᴰ (filter, value) rules
      → Holds H key filter value
      → Satisfies H key rules operator_or
  by_each : EachHolds H key rules → Satisfies H key rules operator_and

contains_mem : (xs : List String) (value : String) → contains xs value ≡ true → Memᴰ value xs
unfolding contains
contains_mem [] value e = absurd (true≢false (sym e))
contains_mem (x ∷ xs) value e = elim (Bool-cases (str_eq x value)) [
  | inl same ↦ Memᴰ.head (sym ((eq_iff x value).0 same))
  | inr other ↦ Memᴰ.tail (contains_mem xs value (rw other at e))
]

mem_contains : (xs : List String) (value : String) → Memᴰ value xs → contains xs value ≡ true
unfolding contains
mem_contains [] value m = elim m [ ]
mem_contains (x ∷ xs) value (Memᴰ.head e) = rw ((eq_iff x value).1 (sym e)) refl
mem_contains (x ∷ xs) value (Memᴰ.tail m) = rw (mem_contains xs value m) (ground arith)

lists_email_emails :
    (H : Host) (value : String) (emails : Option String)
    → lists_email H value emails ≡ true
    → (text : String) × ((emails ≡ some text) × Memᴰ value (H.split_commas text))
unfolding lists_email
lists_email_emails H value none e = absurd (true≢false (sym e))
lists_email_emails H value (some text) e =
    (text, (refl, contains_mem (H.split_commas text) value e))

has_text-some :
    (value : String) (text : Option String) → has_text value text ≡ true → text ≡ some value
unfolding has_text
has_text-some value none e = absurd (true≢false (sym e))
has_text-some value (some text) e = ap some ((eq_iff text value).0 e)

is_unknown_lem : (a : Algorithm) → is_unknown a ≡ true → a ≡ algorithm_unknown
unfolding is_unknown
is_unknown_lem a e = ground arith

module _ (H : Host) (key : CryptoKey) where
  abbrev rule_of : String → String → Bool
  rule_of filter value = match_rule H key.filter_data key.algorithm filter value

  match_rule-Holds :
      (filter value : String) → rule_of filter value ≡ true → Holds H key filter value
  unfolding match_rule
  match_rule-Holds filter value e = elim (Bool-cases (str_eq filter "email")) [
    | inl email ↦
        (let (text, (there, m)) = lists_email_emails H value _ (rw email at e) in
          has_email text ((eq_iff filter "email").0 email) there m)
    | inr no_email ↦ elim (Bool-cases (str_eq filter "canSign")) [
      | inl signs ↦ any_signs ((eq_iff filter "canSign").0 signs)
      | inr no_sign ↦ elim (Bool-cases (str_eq filter "canEncrypt")) [
        | inl encrypts ↦
            unknown_encrypts ((eq_iff filter "canEncrypt").0 encrypts)
              (is_unknown_lem _ (rw encrypts at (rw no_sign at (rw no_email at e))))
        | inr no_encrypt ↦
            has_value (str_eq_apart _ _ no_email) (str_eq_apart _ _ no_sign)
              (str_eq_apart _ _ no_encrypt)
              (has_text-some value _ (rw no_encrypt at (rw no_sign at (rw no_email at e))))
      ]
    ]
  ]

  Holds-match_rule :
      (filter value : String) → Holds H key filter value → rule_of filter value ≡ true
  unfolding match_rule lists_email has_text is_unknown
  Holds-match_rule filter value (has_email text email there m) =
      rw email (rw there (mem_contains (H.split_commas text) value m))
  Holds-match_rule filter value (any_signs e) = rw e refl
  Holds-match_rule filter value (unknown_encrypts e a) = rw e (rw a refl)
  Holds-match_rule filter value (has_value a b c there) =
      rw (str_eq_differ _ _ a) (
        rw (str_eq_differ _ _ b)
          (rw (str_eq_differ _ _ c) (rw there ((eq_iff value value).1 refl))))

  match_or_one :
      (rules : List (String × String))
      → match_or H key rules ≡ true
      → (r : String × String) × (Memᴰ r rules × Holds H key r.0 r.1)
  unfolding match_or
  match_or_one [] e = absurd (true≢false (sym e))
  match_or_one ((f, v) ∷ rest) e = elim (Bool-cases (rule_of f v)) [
    | inl holds ↦ ((f, v), (Memᴰ.head refl, match_rule-Holds f v holds))
    | inr fails ↦ (let (r, (m, h)) = match_or_one rest (rw fails at e) in (r, (Memᴰ.tail m, h)))
  ]

  one_match_or :
      (r : String × String) (rules : List (String × String))
      → Memᴰ r rules
      → Holds H key r.0 r.1
      → match_or H key rules ≡ true
  unfolding match_or
  one_match_or r [] m h = elim m [ ]
  one_match_or r ((f, v) ∷ rest) (Memᴰ.head e) h =
      rw (ap (λ (q : String × String). rule_of q.0 q.1) (sym e) ∙ Holds-match_rule r.0 r.1 h) refl
  one_match_or r ((f, v) ∷ rest) (Memᴰ.tail m) h = rw (one_match_or r rest m h) (ground arith)

  match_and-EachHolds :
      (rules : List (String × String)) → match_and H key rules ≡ true → EachHolds H key rules
  unfolding match_and
  match_and-EachHolds [] e = nil
  match_and-EachHolds ((f, v) ∷ rest) e = elim (Bool-cases (rule_of f v)) [
    | inl holds ↦ cons (match_rule-Holds f v holds) (match_and-EachHolds rest (rw holds at e))
    | inr fails ↦ absurd (true≢false (sym (rw fails at e)))
  ]

  EachHolds-match_and :
      (rules : List (String × String)) → EachHolds H key rules → match_and H key rules ≡ true
  unfolding match_and
  EachHolds-match_and [] nil = refl
  EachHolds-match_and ((f, v) ∷ rest) (cons h hs) =
      rw (Holds-match_rule f v h) (EachHolds-match_and rest hs)

  or_matches :
      (rules : List (String × String))
      → Satisfies H key rules operator_or
      → match_or H key rules ≡ true
  or_matches rules (by_one f v m h) = one_match_or (f, v) rules m h

  and_matches :
      (rules : List (String × String))
      → Satisfies H key rules operator_and
      → match_and H key rules ≡ true
  and_matches rules (by_each hs) = EachHolds-match_and rules hs

  -- A key matches a filter under `OperatorOr` if and only if one of the rules holds of it, and under
  -- `OperatorAnd` if and only if each of them does. A rule "email" holds if its value is among the
  -- texts that commas separate in the key's field "User-Emails", a rule "canSign" always, and a rule
  -- "canEncrypt" if the key's algorithm is unknown, whatever the values of these two. Any other rule
  -- holds if the key has a field of its name in its filter data, with just its value.
  pub matches-Satisfies :
      (operator : FilterOperator) (rules : List (String × String))
      → (matches H operator key rules ≡ true) ↔ Satisfies H key rules operator
  unfolding matches
  matches-Satisfies operator_or rules =
      ((λ e. let (r, (m, h)) = match_or_one rules e in by_one r.0 r.1 m h), or_matches rules)
  matches-Satisfies operator_and rules =
      ((λ e. by_each (match_and-EachHolds rules e)), and_matches rules)
