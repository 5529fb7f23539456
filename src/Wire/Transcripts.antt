-- ===== src/Wire/Transcripts.antt =====
-- What a signature over a transcript of wire.rs commits to: the transcripts determine the values
-- that they are made of, and those of one handshake are never those of the other.
use iroh_hyde_auth.Common.{
  ap, drop, ℕ, ◌≡◌, ◌≢◌, refl, [], ◌∷◌, ◌++◌, arith, Bytes, IsU64, length, append_cancel,
  u64_to_be_bytes, u64_to_be_bytes_injective,
}
use iroh_hyde_auth.Wire.Messages.{
  nonce_len, endpoint_id_len, domain, domain_mutual, protocol_version, transcript,
  mutual_transcript,
}

-- `[u8; NONCE_LEN]` and `[u8; ENDPOINT_ID_LEN]`
abbrev pub IsNonce : Bytes → Type 0
IsNonce n = length n ≡ nonce_len

abbrev pub IsEndpointId : Bytes → Type 0
IsEndpointId id = length id ≡ endpoint_id_len

module _ {n n' i i' : Bytes} {t t' : ℕ} where
  body_injective :
      IsNonce n
      → IsNonce n'
      → IsEndpointId i
      → IsEndpointId i'
      → IsU64 t
      → IsU64 t'
      → n ++ (i ++ u64_to_be_bytes t) ≡ n' ++ (i' ++ u64_to_be_bytes t')
      → (n ≡ n') × (i ≡ i') × (t ≡ t')
  body_injective hn hn' hi hi' ht ht' e =
      let nonces = append_cancel n n' (omega arith) e in
      let ids = append_cancel i i' (omega arith) nonces.1 in
      (nonces.0, ids.0, u64_to_be_bytes_injective t t' ht ht' ids.1)

  -- Two equal transcripts of the one-directional handshake have the same nonce, the same endpoint
  -- id and the same time, for nonces and ids of 32 bytes and times of 64 bits.
  pub transcript_injective :
      IsNonce n
      → IsNonce n'
      → IsEndpointId i
      → IsEndpointId i'
      → IsU64 t
      → IsU64 t'
      → transcript n i t ≡ transcript n' i' t'
      → (n ≡ n') × (i ≡ i') × (t ≡ t')
  unfolding transcript
  transcript_injective hn hn' hi hi' ht ht' e =
      body_injective hn hn' hi hi' ht ht'
        (append_cancel (domain ++ protocol_version ∷ []) (domain ++ protocol_version ∷ []) refl e).1

module _ {r r' : ℕ} {n n' i i' : Bytes} {t t' : ℕ} where
  -- Two equal transcripts of the mutual handshake have the same role, nonce, endpoint id and time,
  -- for nonces and ids of 32 bytes and times of 64 bits.
  pub mutual_transcript_injective :
      IsNonce n
      → IsNonce n'
      → IsEndpointId i
      → IsEndpointId i'
      → IsU64 t
      → IsU64 t'
      → mutual_transcript r n i t ≡ mutual_transcript r' n' i' t'
      → (r ≡ r') × (n ≡ n') × (i ≡ i') × (t ≡ t')
  unfolding mutual_transcript
  mutual_transcript_injective hn hn' hi hi' ht ht' e =
      let tails =
        append_cancel (domain_mutual ++ protocol_version ∷ r ∷ [])
          (domain_mutual ++ protocol_version ∷ r' ∷ []) refl e in
      let body = body_injective hn hn' hi hi' ht ht' tails.1 in
      let roles =
        append_cancel (domain_mutual ++ protocol_version ∷ [])
          (domain_mutual ++ protocol_version ∷ []) refl tails.0 in
      (cc roles.1, body.0, body.1, body.2)

abbrev first : Bytes → ℕ
first [] = 0
first (b ∷ rest) = b

numerals_differ : ◌≢◌ {A = ℕ} b'i' b'm'
numerals_differ = omega arith

-- No transcript of one handshake is a transcript of the other, whatever goes into them.
pub transcript-ne-mutual_transcript :
    (n i : Bytes) (t r : ℕ) (n' i' : Bytes) (t' : ℕ)
    → transcript n i t ≢ mutual_transcript r n' i' t'
unfolding transcript mutual_transcript
transcript-ne-mutual_transcript n i t r n' i' t' e =
    numerals_differ (ap (λ bytes. first (drop 18 bytes)) e)
