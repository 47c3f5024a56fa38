-- ===== src/Tests/PluginExamples.antt =====
-- secrets/rnp and qmf/rnp: the theorems on the plugins at concrete inputs.
use sailfish_crypto_plugins.Common.{◌≡◌, ◌≢◌, ◌↔◌, refl, true, some, List, [], ◌∷◌}
use sailfish_crypto_plugins.Host.{CryptoKey}
use sailfish_crypto_plugins.Rnp.Verify.{Signature, valid, expired}
use sailfish_crypto_plugins.Keys.Outcome.{plugin_name}
use sailfish_crypto_plugins.Keys.Matching.{operator_or, matches}
use sailfish_crypto_plugins.Keys.Matching.Rules.{Satisfies, matches-Satisfies}
use sailfish_crypto_plugins.Keys.Removal.{remove_secret}
use sailfish_crypto_plugins.Keys.Removal.Laws.{RemovesFrom, remove_secret-RemovesFrom}
use sailfish_crypto_plugins.Ffi.Verification.{verify, verification_unknown}
use sailfish_crypto_plugins.Ffi.Verification.Laws.{Concludes, verify-Concludes}
use sailfish_crypto_plugins.Qmf.Canonical.{canonicalize, IsCanonical, lines_of}
use sailfish_crypto_plugins.Qmf.Canonical.Laws.{canonicalize-IsCanonical, canonicalize_iff}
use sailfish_crypto_plugins.Qmf.Summary.{
  signature_valid, signature_expired, summarize, to_signature_result,
}
use sailfish_crypto_plugins.Qmf.Summary.Laws.{AllValid, summarize_lem}
use sailfish_crypto_plugins.Tests.Toy.{toy, toy_ring, toy_world, empty_key}

abbrev toy_key : CryptoKey
toy_key = record empty_key {
  name = "P";
  collection_name = "S";
  storage_plugin_name = plugin_name;
  filter_data = ("Creation-Date", "now") ∷ [];
}

-- librnp does not let the primary key go.
remove_secret-RemovesFrom_example :
    RemovesFrom toy_ring toy_world "P" "Z" (some 0) (remove_secret "P" "Z" toy_world)
remove_secret-RemovesFrom_example =
    remove_secret-RemovesFrom toy_ring "P" "Z" toy_world refl refl refl

matches-Satisfies_example :
    (matches toy operator_or toy_key (("canEncrypt", "") ∷ ("Creation-Date", "now") ∷ []) ≡ true)
    ↔ Satisfies toy toy_key (("canEncrypt", "") ∷ ("Creation-Date", "now") ∷ []) operator_or
matches-Satisfies_example =
    matches-Satisfies toy toy_key operator_or (("canEncrypt", "") ∷ ("Creation-Date", "now") ∷ [])

verify-Concludes_example :
    Concludes
      (2 ∷ [])
      (1 ∷ [])
      toy_key
      (some verification_unknown)
      toy_world
      (verify (2 ∷ []) (1 ∷ []) toy_key (some verification_unknown) toy_world)
verify-Concludes_example =
    verify-Concludes (2 ∷ []) (1 ∷ []) toy_key (some verification_unknown) toy_world

canonicalize-IsCanonical_example : IsCanonical (canonicalize (97 ∷ 13 ∷ 10 ∷ 98 ∷ 10 ∷ []))
canonicalize-IsCanonical_example = canonicalize-IsCanonical (97 ∷ 13 ∷ 10 ∷ 98 ∷ 10 ∷ [])

canonicalize_iff_example :
    ((canonicalize (97 ∷ 10 ∷ []) ≡ canonicalize (97 ∷ 13 ∷ 10 ∷ []))
      → (lines_of (97 ∷ 10 ∷ []) ≡ lines_of (97 ∷ 13 ∷ 10 ∷ [])))
    × ((lines_of (97 ∷ 10 ∷ []) ≡ lines_of (97 ∷ 13 ∷ 10 ∷ []))
        → (canonicalize (97 ∷ 10 ∷ []) ≡ canonicalize (97 ∷ 13 ∷ 10 ∷ [])))
canonicalize_iff_example = canonicalize_iff (97 ∷ 10 ∷ []) (97 ∷ 13 ∷ 10 ∷ [])

abbrev two_signatures : List Signature
two_signatures =
    record { status = valid; keyid = "S"; fingerprint = "P" }
    ∷ record { status = expired; keyid = "S"; fingerprint = "" }
    ∷ []

summarize_lem_example :
    (((summarize two_signatures).summary ≡ signature_valid)
      ↔ ((two_signatures ≢ []) × AllValid two_signatures))
    × ((summarize two_signatures).key_results
        ≡ record { key = "P"; status = signature_valid }
          ∷ record { key = "S"; status = signature_expired }
          ∷ [])
unfolding to_signature_result
summarize_lem_example = summarize_lem two_signatures
