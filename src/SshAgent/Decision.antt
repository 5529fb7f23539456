-- ===== src/SshAgent/Decision.antt =====
-- When `SshVerifier` of ssh_agent.rs accepts.
use iroh_hyde_auth.Common.{◌≡◌, ◌↔◌, ◌⊎◌, inl, inr, true, some, String, Bytes, arith, length, refl}
use iroh_hyde_auth.Error.{StdResult, ok, err}
use iroh_hyde_auth.Verifier.{InstitutionId}
use iroh_hyde_auth.Verifier.Roster
use iroh_hyde_auth.SshAgent.Checks.{Ed25519, SshVerifier, verify}

Result-cases {ℓ} :
    {A : Type ℓ} (r : StdResult A String) → ((a : A) × (r ≡ ok a)) ⊎ ((e : String) × (r ≡ err e))
Result-cases (ok a) = inl (a, refl)
Result-cases (err e) = inr (e, refl)

module _ (ed : Ed25519) (v : SshVerifier) (vk message signature : Bytes) where
  -- `verify` accepts with the identity `id` exactly when the roster has the key under the label
  -- `id`, the key has 32 bytes and is a key of ed25519, the signature has 64 bytes, and it is
  -- strictly good under that key.
  pub ssh_verify_ok :
      (id : InstitutionId)
      → (verify ed v vk message signature ≡ ok id) ↔ (
          (Roster.label v.roster vk ≡ some id)
          × (length vk ≡ 32)
          × (length signature ≡ 64)
          × ((key : ed.VerifyingKey) × (ed.from_bytes vk ≡ ok key)
              × (ed.verify_strict key message signature ≡ true)))
  unfolding verify
  ssh_verify_ok id = (
    λ h. elim (Result-cases (ed.from_bytes vk)) [
      | inl (key, e) ↦
          let roster = Roster.contains-label v.roster vk in
          (
            ground (arith, h, e, roster),
            ground (arith, h, e, roster),
            ground (arith, h, e, roster),
            (key, e, ground (arith, h, e, roster)),
          )
      | inr (text, e) ↦ absurd (ground (arith, h, e))
    ],
    λ found. ground (arith, found, Roster.contains-label v.roster vk),
  )
