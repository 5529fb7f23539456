-- ===== src/Mutual/Binding.antt =====
-- What a complete mutual exchange says about the institutions: both sides of mutual.rs with the
-- verifier of verifier.rs.
use iroh_hyde_auth.Common.{◌≡◌, sym, true, some, Option, ℕ, Bytes, String, IsU64}
use iroh_hyde_auth.Error.{ok}
use iroh_hyde_auth.Net.{EndpointId, EndpointAddr, World}
use iroh_hyde_auth.Hyde.{Hyde}
use iroh_hyde_auth.Wire.{
  MutualCodecs, MutualChallenge, MutualResponse, role_initiator, role_acceptor, transcript,
  mutual_transcript,
}
use iroh_hyde_auth.Wire.Transcripts.{
  IsNonce, IsEndpointId, mutual_transcript_injective, transcript-ne-mutual_transcript,
}
use iroh_hyde_auth.Verifier.{HydeVerifier, as_verifier}
use iroh_hyde_auth.Verifier.Roster
use iroh_hyde_auth.Verifier.Decision.{verify_ok}
use iroh_hyde_auth.Signer.{InstitutionalSigner}
use iroh_hyde_auth.Incoming.Soundness.{next_nonce}
use iroh_hyde_auth.Mutual.{MutualAuthProtocol, Shared, accept_handshake}
use iroh_hyde_auth.Mutual.Initiator.{handshake}
use iroh_hyde_auth.Mutual.Acceptor.{accept_handshake-Accepted}
use iroh_hyde_auth.Mutual.Dialer.{mutual_handshake-Proved}

-- A transcript in a role in which the holder of the key acts at that endpoint, of either handshake.
pub data AboutRole (acts : ℕ → EndpointId → Type 0) (message : Bytes) : Type 0 where
  in_role :
      (role : ℕ) (nonce id : Bytes) (time : ℕ)
      → IsNonce nonce
      → IsEndpointId id
      → IsU64 time
      → acts role id
      → message ≡ mutual_transcript role nonce id time
      → AboutRole acts message
  one_way :
      (nonce id : Bytes) (time : ℕ) → message ≡ transcript nonce id time → AboutRole acts message

own_role :
    (acts : ℕ → EndpointId → Type 0) (role : ℕ) (nonce id : Bytes) (time : ℕ)
    → IsNonce nonce
    → IsEndpointId id
    → IsU64 time
    → AboutRole acts (mutual_transcript role nonce id time)
    → acts role id
own_role acts role nonce id time hn hi ht (in_role r n i t hn' hi' ht' own e) =
    let same = mutual_transcript_injective hn hn' hi hi' ht ht' e in rw (same.0, same.2) own
own_role acts role nonce id time hn hi ht (one_way n i t e) =
    absurd (transcript-ne-mutual_transcript n i t role nonce id time (sym e))

-- The parties: who has signed what, and in which role the holder of a key acts at which endpoint.
-- `unforged` says that hyde finds a signature good only over a message that the key's holder has
-- signed, and `honest` that a holder signs mutual transcripts only in roles and about endpoints in
-- which it acts.
pub record Parties (hyde : Hyde) (algorithm : hyde.SigningAlgorithm) : Type 1 where
  pub Signed : Bytes → Bytes → Type 0
  pub Acts : Bytes → ℕ → EndpointId → Type 0
  pub unforged :
      (vk message signature : Bytes)
      → hyde.verify_signature algorithm vk message signature ≡ ok true
      → Signed vk message
  pub honest : (vk message : Bytes) → Signed vk message → AboutRole (Acts vk) message

module _ (codecs : MutualCodecs) (hyde : Hyde) (v : HydeVerifier hyde)
    (parties : Parties hyde v.algorithm) where
  open parties use {Signed, Acts, unforged, honest}

  -- A key of the roster whose holder acts in this role at this endpoint.
  abbrev pub Operator : ℕ → EndpointId → Type 0
  Operator role id =
      (vk : Bytes) × (institution : String) × (Roster.label v.roster vk ≡ some institution)
      × Acts vk role id

  vouched :
      (role : ℕ) (vk nonce id signature : Bytes) (time : ℕ) (institution : String)
      → IsNonce nonce
      → IsEndpointId id
      → IsU64 time
      → (as_verifier hyde v).verify vk (mutual_transcript role nonce id time) signature
        ≡ ok institution
      → Operator role id
  vouched role vk nonce id signature time institution hn hi ht e =
      let message = mutual_transcript role nonce id time in
      let good = (verify_ok hyde v vk message signature institution).0 e in
      (
        vk,
        institution,
        good.0,
        own_role (Acts vk) role nonce id time hn hi ht
            (honest vk message (unforged vk message signature good.1)),
      )

  -- If the acceptor's side of the mutual handshake succeeds, then the result is the id of the
  -- endpoint at the other end, and the holder of some key of the roster acts there as initiator.
  -- This is for an own nonce and a remote id of 32 bytes, decoded times of 64 bits, unforged
  -- signatures, and holders that sign only in roles and about endpoints in which they act: so a
  -- signature that was made as acceptor is not reflected as that of an initiator.
  pub accepted_initiator :
      (p : MutualAuthProtocol) (shared : Shared) (w : World) (remote : EndpointId) (w' : World)
      → p.verifier ≡ as_verifier hyde v
      → ((bytes : Bytes) (response : MutualResponse)
          → codecs.response.from_bytes bytes ≡ ok response
          → IsU64 response.initiator_unix_secs)
      → IsNonce (next_nonce w)
      → IsEndpointId w.remote.id
      → accept_handshake codecs p shared w ≡ (ok remote, w')
      → (remote ≡ w.remote.id) × Operator role_initiator w.remote.id
  accepted_initiator p shared w remote w' uses typed hn hi e =
      let (a, same) = accept_handshake-Accepted codecs p shared w e in
      (
        same,
        vouched role_initiator a.response.verifying_key (next_nonce w) w.remote.id
            a.response.signature a.response.initiator_unix_secs a.institution hn hi
            (typed a.response_bytes a.response a.answered) (rw uses at a.verified),
      )

  -- If the initiator's side of the mutual handshake succeeds, then the holder of some key of the
  -- roster acts as acceptor at the endpoint that was dialled. This is for an own nonce and a dialled
  -- id of 32 bytes, decoded times of 64 bits, unforged signatures, and holders that sign only in
  -- roles and about endpoints in which they act.
  pub dialled_acceptor :
      (my_id : EndpointId) (addr : EndpointAddr) (signer : InstitutionalSigner) (max : Option ℕ)
      (w w' : World)
      → ((bytes : Bytes) (challenge : MutualChallenge)
          → codecs.challenge.from_bytes bytes ≡ ok challenge
          → IsU64 challenge.acceptor_unix_secs)
      → IsNonce (next_nonce w)
      → IsEndpointId addr.id
      → handshake codecs my_id addr signer (as_verifier hyde v) max w ≡ (ok tt, w')
      → Operator role_acceptor addr.id
  dialled_acceptor my_id addr signer max w w' typed hn hi e =
      let a = mutual_handshake-Proved codecs my_id addr signer (as_verifier hyde v) max w e in
      vouched role_acceptor a.challenge.verifying_key (next_nonce w) addr.id a.challenge.signature
        a.challenge.acceptor_unix_secs a.institution hn hi
        (typed a.challenge_bytes a.challenge a.challenged) a.verified
