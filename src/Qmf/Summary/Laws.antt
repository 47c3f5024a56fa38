-- ===== src/Qmf/Summary/Laws.antt =====
-- qmf/rnp/plugin.cpp: when the summary of a verification says that the signature is valid.
use sailfish_crypto_plugins.Common.{
  ◌≡◌, if◌then◌else◌, ◌≢◌, ◌↔◌, refl, ◌∙◌, sym, List, [], ◌∷◌, ◌++◌, append-nil, append_assoc, map,
  arith, All,
}
use sailfish_crypto_plugins.Rnp.Verify.{Signature, Status, valid}
use sailfish_crypto_plugins.Qmf.Summary.{
  SignatureResult, signature_valid, to_signature_result, KeyResult, VerificationResult, signer_of,
  add_signatures, summarize, is_valid,
}

abbrev pub AllValid : List Signature → Type 0
AllValid = All (λ s. s.status ≡ valid)

kept_of :
    (st : Status) (old : SignatureResult)
    → (if is_valid st then old else to_signature_result st) ≡ signature_valid
    → (old ≡ signature_valid) × (st ≡ valid)
unfolding to_signature_result
kept_of st old e = ground arith

summary-AllValid :
    (sigs : List Signature) (r : VerificationResult)
    → ((add_signatures sigs r).summary ≡ signature_valid)
      ↔ ((r.summary ≡ signature_valid) × AllValid sigs)
unfolding add_signatures
summary-AllValid [] r = (λ e. (e, tt), λ h. h.0)
summary-AllValid (s ∷ rest) r = (
  λ e.
      let (here, later) = (summary-AllValid rest _).0 e in
      let (kept, good) = head.0 here in (kept, (good, later)),
  λ h. (summary-AllValid rest _).1 (head.1 (h.0, h.1.0), h.1.1),
)
  where
    head :
        (if is_valid s.status then r.summary else to_signature_result s.status) ≡ signature_valid
        ↔ ((r.summary ≡ signature_valid) × (s.status ≡ valid))
    head = (λ e. kept_of s.status r.summary e, λ h. ground arith)

abbrev pub entry : Signature → KeyResult
entry s = record { key = signer_of s; status = to_signature_result s.status }

key_results-map :
    (sigs : List Signature) (r : VerificationResult)
    → (add_signatures sigs r).key_results ≡ r.key_results ++ map entry sigs
unfolding add_signatures
key_results-map [] r = sym (append-nil r.key_results)
key_results-map (s ∷ rest) r =
    key_results-map rest _ ∙ append_assoc r.key_results (entry s ∷ []) (map entry rest)

-- The summary of a verification is "valid" exactly when there is at least one signature and every
-- one is valid, and the key results list each signature in order, under its fingerprint or, if that
-- is empty, its key id.
pub summarize_lem :
    (sigs : List Signature)
    → (((summarize sigs).summary ≡ signature_valid) ↔ ((sigs ≢ []) × AllValid sigs))
      × ((summarize sigs).key_results ≡ map entry sigs)
unfolding summarize
summarize_lem [] = ((λ e. cc, λ h. absurd (h.0 refl)), refl)
summarize_lem (s ∷ rest) =
    let start : VerificationResult = record {
      engine = "librnp.so";
      summary = signature_valid;
      key_results = [];
    } in
    let valid_iff = summary-AllValid (s ∷ rest) start in
    (
      (λ e. (λ n. cc, (valid_iff.0 e).1), λ h. valid_iff.1 (refl, h.1)),
      key_results-map (s ∷ rest) start,
    )
