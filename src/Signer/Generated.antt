-- ===== src/Signer/Generated.antt =====
-- A signer that `HydeSigner::generate` of signer.rs gives, against a verifier of verifier.rs.
use iroh_hyde_auth.Common.{◌≡◌, refl, some, String, List, [], ◌∷◌, Bytes, arith, list_eq, beq_refl}
use iroh_hyde_auth.Error.{StdResult, ok, err}
use iroh_hyde_auth.Hyde.{Hyde, SignsFor}
use iroh_hyde_auth.Verifier.{new, verify}
use iroh_hyde_auth.Verifier.Decision.{verify_ok}
use iroh_hyde_auth.Verifier.Roster
use iroh_hyde_auth.Signer.{HydeSigner, from_parts, generate, sign_with, sign, generated, detected}

module _ (hyde : Hyde) where
  -- The signer when it has signed these messages, whatever came of each.
  unfoldable pub after : HydeSigner hyde → List Bytes → HydeSigner hyde
  after s [] = s
  after s (message ∷ rest) = after (sign hyde s message).1 rest

  -- What hyde documents of a key that it generates for ML-DSA-65.
  abbrev pub GeneratesGood : Type 0
  GeneratesGood =
      (c c' : hyde.HydeContext) (k : hyde.WrappedSigningKey)
      → hyde.generate_signing_key c hyde.ml_dsa65 ≡ (ok k, c')
      → SignsFor hyde hyde.ml_dsa65 k

  -- A signer with this key, whatever its context is.
  record Holds (k : hyde.WrappedSigningKey) (s : HydeSigner hyde) : Type 0 where
    ctx : hyde.HydeContext
    inner : s.inner ≡ some (record { ctx = ctx; key = k })
    own : s.verifying_key ≡ hyde.verifying_key k

  sign-Holds :
      (k : hyde.WrappedSigningKey) (s : HydeSigner hyde) (message : Bytes)
      → Holds k s
      → Holds k (sign hyde s message).1
  unfolding sign sign_with
  sign-Holds k s message h = record {
    ctx = (hyde.sign h.ctx k message).1;
    inner = ground (arith, h.inner);
    own = ground (arith, h.inner, h.own);
  }

  after-Holds :
      (k : hyde.WrappedSigningKey) (s : HydeSigner hyde) (messages : List Bytes)
      → Holds k s
      → Holds k (after s messages)
  unfolding after
  after-Holds k s [] h = h
  after-Holds k s (message ∷ rest) h =
      after-Holds k (sign hyde s message).1 rest (sign-Holds k s message h)

  generated-Holds :
      (r : StdResult hyde.WrappedSigningKey String × hyde.HydeContext) (s : HydeSigner hyde)
      → generated hyde r ≡ ok s
      → (k : hyde.WrappedSigningKey) × (c : hyde.HydeContext) × (r ≡ (ok k, c)) × Holds k s
  unfolding from_parts
  generated-Holds (ok k, c) s e =
      (k, c, refl, record { ctx = c; inner = ground (arith, e); own = ground (arith, e) })
  generated-Holds (err x, c) s e = absurd (ground (arith, e))

  detected-Holds :
      (r : StdResult hyde.HydeContext String) (s : HydeSigner hyde)
      → GeneratesGood
      → detected hyde r ≡ ok s
      → (k : hyde.WrappedSigningKey) × SignsFor hyde hyde.ml_dsa65 k × Holds k s
  detected-Holds (ok c) s good e =
      let (k, c', made, held) = generated-Holds (hyde.generate_signing_key c hyde.ml_dsa65) s e in
      (k, good c c' k made, held)
  detected-Holds (err x) s good e = absurd (ground (arith, e))

  signed_by :
      (k : hyde.WrappedSigningKey) (s : HydeSigner hyde) (message signature : Bytes)
      → Holds k s
      → (sign hyde s message).0 ≡ ok signature
      → (c : hyde.HydeContext) × ((hyde.sign c k message).0 ≡ ok signature)
  unfolding sign sign_with
  signed_by k s message signature h e = (h.ctx, ground (arith, h.inner, e))

  -- What a signer from `generate` signs, whatever it has signed before, a verifier accepts whose
  -- roster was given the signer's verifying key under a label: the identity is the label. This is for
  -- a hyde whose generated keys make signatures that verify.
  pub verify-generate :
      (fallback : hyde.FallbackPolicy) (s : HydeSigner hyde) (earlier : List Bytes)
      (roster : Roster.Roster) (label : String) (message signature : Bytes)
      → GeneratesGood
      → generate hyde fallback ≡ ok s
      → (sign hyde (after s earlier) message).0 ≡ ok signature
      → verify hyde
          (new hyde (Roster.insert roster s.verifying_key label))
          s.verifying_key
          message
          signature
        ≡ ok label
  unfolding new generate
  verify-generate fallback s earlier roster label message signature good made signed =
      let (k, fine, held) = detected-Holds (hyde.auto_detect fallback) s good made in
      let (c, by_key) =
        signed_by k (after s earlier) message signature (after-Holds k s earlier held) signed in
      rw held.own (
        (verify_ok hyde _ (hyde.verifying_key k) message signature label).1
          (rw (Roster.label-insert, beq_refl) refl, fine.verifies c message signature by_key))
