-- ===== src/Hyde.antt =====
-- The hyde crate, which is not part of this repository, by the operations that the code calls.
use iroh_hyde_auth.Common.{Bool, true, String, ◌≡◌, Bytes}
use iroh_hyde_auth.Error.{StdResult, ok}

pub record Hyde : Type 1 where
  pub SigningAlgorithm : Type 0
  pub ml_dsa65 : SigningAlgorithm
  pub FallbackPolicy : Type 0
  pub HydeContext : Type 0
  pub WrappedSigningKey : Type 0
  pub verifying_key : WrappedSigningKey → Bytes
  pub auto_detect : FallbackPolicy → StdResult HydeContext String
  pub generate_signing_key :
      HydeContext → SigningAlgorithm → StdResult WrappedSigningKey String × HydeContext
  pub sign : HydeContext → WrappedSigningKey → Bytes → StdResult Bytes String × HydeContext
  -- the algorithm, the verifying key, the message and the signature
  pub verify_signature : SigningAlgorithm → Bytes → Bytes → Bytes → StdResult Bool String

-- What hyde documents of a key pair: a key that it generated for an algorithm makes signatures that
-- verify under its verifying key and that algorithm, whatever the context has signed before.
pub record SignsFor (hyde : Hyde) (a : hyde.SigningAlgorithm) (k : hyde.WrappedSigningKey)
    : Type 0 where
  pub verifies :
      (c : hyde.HydeContext) (message signature : Bytes)
      → (hyde.sign c k message).0 ≡ ok signature
      → hyde.verify_signature a (hyde.verifying_key k) message signature ≡ ok true
