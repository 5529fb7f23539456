-- ===== src/Verifier.antt =====
-- verifier.rs: who is trusted. The signature check of hyde is the parameter `Hyde`.
pub mod Roster
pub mod Decision
use iroh_hyde_auth.Common.{Bool, true, false, not, Option, none, some, String, Bytes, if◌then◌else◌}
use iroh_hyde_auth.Error.{StdResult, ok, err, concat, map_err}
use iroh_hyde_auth.Hyde.{Hyde}

pub data VerifyError : Type 0 where
  untrusted_key bad_signature revoked : VerifyError
  crypto : String → VerifyError

unfoldable pub to_string : VerifyError → String
to_string untrusted_key = "verifying key is not a trusted institution"
to_string bad_signature = "signature verification failed"
to_string revoked = "institution has been revoked"
to_string (crypto text) = concat "crypto error: " text

abbrev pub InstitutionId : Type 0
InstitutionId = String

-- The trait: `verify` takes the verifying key, the message and the signature.
pub record InstitutionVerifier : Type 0 where
  pub verify : Bytes → Bytes → Bytes → StdResult InstitutionId VerifyError

abbrev pub or_empty : Option String → String
or_empty none = ""
or_empty (some label) = label

pub record HydeVerifier (hyde : Hyde) : Type 0 where
  pub roster : Roster.Roster
  pub algorithm : hyde.SigningAlgorithm

module _ (hyde : Hyde) where
  unfoldable pub new : Roster.Roster → HydeVerifier hyde
  new roster = record { roster = roster; algorithm = hyde.ml_dsa65 }

  unfoldable pub with_algorithm : HydeVerifier hyde → hyde.SigningAlgorithm → HydeVerifier hyde
  with_algorithm v algorithm = record v { algorithm = algorithm }

  abbrev answer :
      Roster.Roster → Bytes → StdResult Bool String → StdResult InstitutionId VerifyError
  answer roster verifying_key (err e) = err (crypto e)
  answer roster verifying_key (ok good) =
      if not good then err bad_signature else ok (or_empty (Roster.label roster verifying_key))

  -- The roster is asked first, and the signature is checked only under a key that it holds.
  unfoldable pub verify :
      HydeVerifier hyde → Bytes → Bytes → Bytes → StdResult InstitutionId VerifyError
  verify v verifying_key message signature =
      if not (Roster.contains v.roster verifying_key)
      then err untrusted_key
      else answer v.roster verifying_key
          (hyde.verify_signature v.algorithm verifying_key message signature)

  -- The verifier as a trait object.
  abbrev pub as_verifier : HydeVerifier hyde → InstitutionVerifier
  as_verifier v = record { verify = verify v }
