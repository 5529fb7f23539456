-- ===== src/SshAgent/Checks.antt =====
-- `SshVerifier` of ssh_agent.rs, over the ed25519 of ed25519-dalek.
use iroh_hyde_auth.Common.{Bool, not, Option, none, some, String, Bytes, if◌then◌else◌}
use iroh_hyde_auth.Error.{StdResult, ok, err}
use iroh_hyde_auth.Verifier.{
  VerifyError, untrusted_key, bad_signature, crypto, InstitutionId, InstitutionVerifier, or_empty,
}
use iroh_hyde_auth.Verifier.Roster
use iroh_hyde_auth.SshAgent.Reader.{to_array}

-- The operations of ed25519-dalek that the code calls: `VerifyingKey::from_bytes` on 32 bytes, with
-- the text of its error, and `verify_strict` of a message and a signature of 64 bytes.
pub record Ed25519 : Type 1 where
  pub VerifyingKey : Type 0
  pub from_bytes : Bytes → StdResult VerifyingKey String
  pub verify_strict : VerifyingKey → Bytes → Bytes → Bool

pub record SshVerifier : Type 0 where
  pub roster : Roster.Roster

unfoldable pub new : Roster.Roster → SshVerifier
new roster = record { roster = roster }

module _ (ed : Ed25519) where
  abbrev pub strictly :
      SshVerifier
      → Bytes
      → Bytes
      → ed.VerifyingKey
      → Option Bytes
      → StdResult InstitutionId VerifyError
  strictly v verifying_key message vk none = err bad_signature
  strictly v verifying_key message vk (some sig) =
      if not (ed.verify_strict vk message sig)
      then err bad_signature
      else ok (or_empty (Roster.label v.roster verifying_key))

  abbrev pub with_key :
      SshVerifier
      → Bytes
      → Bytes
      → Bytes
      → StdResult ed.VerifyingKey String
      → StdResult InstitutionId VerifyError
  with_key v verifying_key message signature (err e) = err (crypto e)
  with_key v verifying_key message signature (ok vk) =
      strictly v verifying_key message vk (to_array 64 signature)

  abbrev with_bytes :
      SshVerifier → Bytes → Bytes → Bytes → Option Bytes → StdResult InstitutionId VerifyError
  with_bytes v verifying_key message signature none = err (crypto "ed25519 key must be 32 bytes")
  with_bytes v verifying_key message signature (some vk_bytes) =
      with_key v verifying_key message signature (ed.from_bytes vk_bytes)

  unfoldable pub verify : SshVerifier → Bytes → Bytes → Bytes → StdResult InstitutionId VerifyError
  verify v verifying_key message signature =
      if not (Roster.contains v.roster verifying_key)
      then err untrusted_key
      else with_bytes v verifying_key message signature (to_array 32 verifying_key)

  abbrev pub as_verifier : SshVerifier → InstitutionVerifier
  as_verifier v = record { verify = verify v }
