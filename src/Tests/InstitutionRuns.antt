-- ===== src/Tests/InstitutionRuns.antt =====
-- The verifier of verifier.rs and the signer of signer.rs.
use iroh_hyde_auth.Common.{◌≡◌, refl, ◌≢◌, ◌↔◌, false, none, some, String, [], list_eq}
use iroh_hyde_auth.Error.{ok, err}
use iroh_hyde_auth.Verifier.{untrusted_key, bad_signature, revoked, crypto, verify}
use iroh_hyde_auth.Verifier.Roster
use iroh_hyde_auth.Verifier.Decision.{verify_errors}
use iroh_hyde_auth.Signer.{generate, sign_with, sign, from_parts}
use iroh_hyde_auth.Signer.Generated.{after, verify-generate}
use iroh_hyde_auth.Verifier.{new}
use iroh_hyde_auth.Common.{◌∷◌}
use iroh_hyde_auth.Tests.MutualInstitutionRuns
use iroh_hyde_auth.Tests.MutualInstitutionRuns.{every_key-SignsFor}
use iroh_hyde_auth.Tests.Fixtures.{site_key, message, hyde, verifier}

verify_errors_example :
    ((verify hyde verifier site_key message [] ≡ err untrusted_key)
      ↔ (Roster.label verifier.roster site_key ≡ none))
    × ((verify hyde verifier site_key message [] ≡ err bad_signature) ↔ (
        (label : String) × (Roster.label verifier.roster site_key ≡ some label)
        × (hyde.verify_signature verifier.algorithm site_key message [] ≡ ok false)))
    × ((verify hyde verifier site_key message [] ≡ err (crypto "bad key")) ↔ (
        (label : String) × (Roster.label verifier.roster site_key ≡ some label)
        × (hyde.verify_signature verifier.algorithm site_key message [] ≡ err "bad key")))
    × (verify hyde verifier site_key message [] ≢ err revoked)
verify_errors_example = verify_errors hyde verifier site_key message [] "bad key"

-- Every key of this hyde signs alike, so also those that it generates.
verify-generate_example :
    verify MutualInstitutionRuns.hyde
      (new MutualInstitutionRuns.hyde (Roster.insert Roster.new (21 ∷ []) "site-b"))
      (21 ∷ [])
      message
      (21 ∷ message)
    ≡ ok "site-b"
unfolding after generate sign sign_with from_parts
verify-generate_example =
    verify-generate MutualInstitutionRuns.hyde tt
      (from_parts MutualInstitutionRuns.hyde 0 (21 ∷ [])) (site_key ∷ [] ∷ []) Roster.new "site-b"
      message (21 ∷ message) (λ c c' k made. every_key-SignsFor k) refl refl
