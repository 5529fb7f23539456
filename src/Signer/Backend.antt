-- ===== src/Signer/Backend.antt =====
-- Signing through hyde and verifying through hyde: signer.rs against verifier.rs.
use iroh_hyde_auth.Common.{◌≡◌, none, some, Bytes, arith, list_eq, if◌then◌else◌}
use iroh_hyde_auth.Error.{ok, err, signer_failed}
use iroh_hyde_auth.Hyde.{Hyde, SignsFor}
use iroh_hyde_auth.Verifier.{new, verify, or_empty, untrusted_key}
use iroh_hyde_auth.Verifier.Roster
use iroh_hyde_auth.Signer.{HydeSigner, Inner, from_parts, sign}

module _ (hyde : Hyde) (c : hyde.HydeContext) (k : hyde.WrappedSigningKey) where
  -- What a signer made of a context and a key signs, a verifier accepts exactly if its roster has the
  -- key, under the key's label: nothing else is left to decide. This is for keys whose signatures hyde
  -- verifies under ML-DSA-65.
  pub verify-sign_roster :
      (roster : Roster.Roster) (message signature : Bytes)
      → SignsFor hyde hyde.ml_dsa65 k
      → (sign hyde (from_parts hyde c k) message).0 ≡ ok signature
      → verify hyde (new hyde roster) (hyde.verifying_key k) message signature ≡ (
          if Roster.contains roster (hyde.verifying_key k)
          then ok (or_empty (Roster.label roster (hyde.verifying_key k)))
          else err untrusted_key)
  unfolding from_parts new sign verify
  verify-sign_roster roster message signature good signed =
      let verified = good.verifies c message signature (ground (arith, signed)) in
      ground (arith, verified)

module _ (hyde : Hyde) (s : HydeSigner hyde) where
  -- A signer with a poisoned mutex gives that error, and is as it was; any other signer asks hyde,
  -- and keeps its key and its verifying key.
  pub sign_keeps_key :
      (message : Bytes)
      → ((sign hyde s message).1.verifying_key ≡ s.verifying_key)
        × (s.inner ≡ none → sign hyde s message ≡ (err (signer_failed "signer mutex poisoned"), s))
        × ((inner : Inner hyde)
            → s.inner ≡ some inner
            → (sign hyde s message).1.inner
              ≡ some (record inner { ctx = (hyde.sign inner.ctx inner.key message).1 }))
  unfolding sign
  sign_keeps_key message = (ground arith, λ h. ground arith, λ inner h. ground arith)
