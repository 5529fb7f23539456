-- ===== src/Signer.antt =====
-- signer.rs: producing institutional signatures.
pub mod Backend
pub mod Generated
use iroh_hyde_auth.Common.{Option, none, some, String, Bytes}
use iroh_hyde_auth.Error.{StdResult, ok, err, Error, Result, signer_failed, map_err, concat}
use iroh_hyde_auth.Net.{World, Io}
use iroh_hyde_auth.Hyde.{Hyde}

-- The trait. `sign` is what the backend answers to the call that the handshake makes.
pub record InstitutionalSigner : Type 0 where
  pub verifying_key : Bytes
  pub sign : Bytes → Result Bytes

-- `spawn_blocking` gives the result of the closure, or the error of a task that did not end.
abbrev joined : Option String → Result Bytes → Result Bytes
joined none result = result
joined (some e) result = err (signer_failed (concat "signing task failed: " e))

unfoldable pub sign_blocking : InstitutionalSigner → Bytes → Io Bytes Error
sign_blocking signer message w = (joined w.join_error (signer.sign message), w)

-- The context and the key stand behind a mutex: `none` is a poisoned one.
pub record Inner (hyde : Hyde) : Type 0 where
  pub ctx : hyde.HydeContext
  pub key : hyde.WrappedSigningKey

pub record HydeSigner (hyde : Hyde) : Type 0 where
  pub inner : Option (Inner hyde)
  pub verifying_key : Bytes

module _ (hyde : Hyde) where
  unfoldable pub from_parts : hyde.HydeContext → hyde.WrappedSigningKey → HydeSigner hyde
  from_parts ctx key = record {
    inner = some (record { ctx = ctx; key = key });
    verifying_key = hyde.verifying_key key;
  }

  abbrev pub generated :
      StdResult hyde.WrappedSigningKey String × hyde.HydeContext → Result (HydeSigner hyde)
  generated (ok key, ctx) = ok (from_parts ctx key)
  generated (err e, ctx) = err (signer_failed e)

  abbrev pub detected : StdResult hyde.HydeContext String → Result (HydeSigner hyde)
  detected (ok ctx) = generated (hyde.generate_signing_key ctx hyde.ml_dsa65)
  detected (err e) = err (signer_failed e)

  unfoldable pub generate : hyde.FallbackPolicy → Result (HydeSigner hyde)
  generate fallback = detected (hyde.auto_detect fallback)

  unfoldable pub sign_with :
      HydeSigner hyde → Option (Inner hyde) → Bytes → Result Bytes × HydeSigner hyde
  sign_with s none message = (err (signer_failed "signer mutex poisoned"), s)
  sign_with s (some inner) message =
      let (result, ctx) = hyde.sign inner.ctx inner.key message in
      (map_err signer_failed result, record s { inner = some (record inner { ctx = ctx }) })

  -- The call returns the signer as it leaves it: hyde's context may change.
  unfoldable pub sign : HydeSigner hyde → Bytes → Result Bytes × HydeSigner hyde
  unfolding sign_with
  sign s message = sign_with s s.inner message

  -- The signer as a trait object, at one moment.
  abbrev pub as_signer : HydeSigner hyde → InstitutionalSigner
  as_signer s = record { verifying_key = s.verifying_key; sign = λ message. (sign s message).0 }
