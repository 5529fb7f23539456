-- ===== src/Verifier/Decision.antt =====
-- When `HydeVerifier` of verifier.rs accepts, and which error it gives otherwise.
use iroh_hyde_auth.Common.{
  ◌≡◌, ◌≢◌, ◌↔◌, inl, inr, true, false, none, some, String, Bytes, arith, Option-cases,
}
use iroh_hyde_auth.Error.{ok, err}
use iroh_hyde_auth.Hyde.{Hyde}
use iroh_hyde_auth.Verifier.{
  untrusted_key, bad_signature, revoked, crypto, InstitutionId, HydeVerifier, verify,
}
use iroh_hyde_auth.Verifier.Roster

module _ (hyde : Hyde) (v : HydeVerifier hyde) (vk message signature : Bytes) where
  -- `verify` accepts with the identity `id` exactly when the roster has the key under the label
  -- `id` and hyde finds the signature good under the key and the verifier's algorithm.
  pub verify_ok :
      (id : InstitutionId)
      → (verify hyde v vk message signature ≡ ok id) ↔ (
          (Roster.label v.roster vk ≡ some id)
          × (hyde.verify_signature v.algorithm vk message signature ≡ ok true))
  unfolding verify
  verify_ok id = ground (arith, Roster.contains-label v.roster vk)

  -- The error is `UntrustedKey` exactly when the roster lacks the key, whatever hyde would say;
  -- `BadSignature` exactly when it has the key and hyde finds the signature bad; the text `text` of
  -- a failure exactly when it has the key and hyde fails with that text; and never `Revoked`.
  pub verify_errors :
      (text : String)
      → ((verify hyde v vk message signature ≡ err untrusted_key)
          ↔ (Roster.label v.roster vk ≡ none))
        × ((verify hyde v vk message signature ≡ err bad_signature) ↔ (
            (label : String) × (Roster.label v.roster vk ≡ some label)
            × (hyde.verify_signature v.algorithm vk message signature ≡ ok false)))
        × ((verify hyde v vk message signature ≡ err (crypto text)) ↔ (
            (label : String) × (Roster.label v.roster vk ≡ some label)
            × (hyde.verify_signature v.algorithm vk message signature ≡ err text)))
        × (verify hyde v vk message signature ≢ err revoked)
  unfolding verify
  verify_errors text =
      let roster = Roster.contains-label v.roster vk in
      (
        ground (arith, roster),
        (
          λ e. elim (Option-cases (Roster.label v.roster vk)) [
            | inl h ↦ absurd (ground (arith, e, h, roster))
            | inr (label, h) ↦ (label, h, ground (arith, e, h, roster))
          ],
          λ found. ground (arith, found, roster),
        ),
        (
          λ e. elim (Option-cases (Roster.label v.roster vk)) [
            | inl h ↦ absurd (ground (arith, e, h, roster))
            | inr (label, h) ↦ (label, h, ground (arith, e, h, roster))
          ],
          λ found. ground (arith, found, roster),
        ),
        λ e. ground (arith, e),
      )
