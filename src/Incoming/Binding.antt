-- ===== src/Incoming/Binding.antt =====
-- What an accepted exchange says about the institution: the acceptor of incoming.rs with the
-- verifier of verifier.rs.
use iroh_hyde_auth.Common.{arith, ◌≡◌, ◌≢◌, true, some, ℕ, Bytes, String, IsU64}
use iroh_hyde_auth.Error.{ok}
use iroh_hyde_auth.Net.{EndpointId, World}
use iroh_hyde_auth.Hyde.{Hyde}
use iroh_hyde_auth.Wire.{Codecs, ClientAuth, transcript, mutual_transcript}
use iroh_hyde_auth.Wire.Transcripts.{
  IsNonce, IsEndpointId, transcript_injective, transcript-ne-mutual_transcript,
}
use iroh_hyde_auth.Verifier.{HydeVerifier, as_verifier}
use iroh_hyde_auth.Verifier.Roster
use iroh_hyde_auth.Verifier.Decision.{verify_ok}
use iroh_hyde_auth.Incoming.{AuthProtocol, run_handshake}
use iroh_hyde_auth.Incoming.Soundness.{Accepted, run_handshake-Accepted, next_nonce}

-- A transcript about an endpoint that the holder of the key operates, of either handshake.
pub data AboutOwn (operates : EndpointId → Type 0) (message : Bytes) : Type 0 where
  one_way :
      (nonce id : Bytes) (time : ℕ)
      → IsNonce nonce
      → IsEndpointId id
      → IsU64 time
      → operates id
      → message ≡ transcript nonce id time
      → AboutOwn operates message
  mutual_way :
      (role : ℕ) (nonce id : Bytes) (time : ℕ)
      → message ≡ mutual_transcript role nonce id time
      → AboutOwn operates message

own_endpoint :
    (operates : EndpointId → Type 0) (nonce id : Bytes) (time : ℕ)
    → IsNonce nonce
    → IsEndpointId id
    → IsU64 time
    → AboutOwn operates (transcript nonce id time)
    → operates id
own_endpoint operates nonce id time hn hi ht (one_way n i t hn' hi' ht' own e) =
    rw (transcript_injective hn hn' hi hi' ht ht' e).1 own
own_endpoint operates nonce id time hn hi ht (mutual_way r n i t e) =
    absurd (transcript-ne-mutual_transcript nonce id time r n i t e)

-- The parties: who has signed what, and which endpoints the holder of a key operates. `unforged`
-- says that hyde finds a signature good only over a message that the key's holder has signed, and
-- `honest` that a holder signs transcripts about its own endpoints only.
pub record Parties (hyde : Hyde) (algorithm : hyde.SigningAlgorithm) : Type 1 where
  pub Signed : Bytes → Bytes → Type 0
  pub Operates : Bytes → EndpointId → Type 0
  pub unforged :
      (vk message signature : Bytes)
      → hyde.verify_signature algorithm vk message signature ≡ ok true
      → Signed vk message
  pub honest : (vk message : Bytes) → Signed vk message → AboutOwn (Operates vk) message

module _ (codecs : Codecs) (hyde : Hyde) (v : HydeVerifier hyde)
    (parties : Parties hyde v.algorithm)
    (typed : (bytes : Bytes) (auth : ClientAuth)
      → codecs.auth.from_bytes bytes ≡ ok auth
      → IsU64 auth.client_unix_secs) where
  open parties use {Signed, Operates, unforged, honest}

  -- An accepted exchange has a signature of the holder of some key under the label.
  vouched :
      (p : AuthProtocol) (w : World) (institution : String) (w' : World)
      → p.verifier ≡ as_verifier hyde v
      → run_handshake codecs p w ≡ (ok institution, w')
      → (vk : Bytes) × (time : ℕ) × (Roster.label v.roster vk ≡ some institution)
        × IsU64 time
        × Signed vk (transcript (next_nonce w) w.remote.id time)
  vouched p w institution w' uses e =
      let a = run_handshake-Accepted codecs p w e in
      let message = transcript (next_nonce w) w.remote.id a.auth.client_unix_secs in
      let good =
        (verify_ok hyde v a.auth.verifying_key message a.auth.signature institution).0
          (rw uses at a.verified) in
      (
        a.auth.verifying_key,
        a.auth.client_unix_secs,
        good.0,
        typed a.auth_bytes a.auth a.answered,
        unforged a.auth.verifying_key message a.auth.signature good.1,
      )

  -- If the acceptor's handshake succeeds with an institution, then the roster has a key under that
  -- label whose holder operates the endpoint at the other end of the connection, and has signed the
  -- transcript with this handshake's own nonce. This is for a nonce and an endpoint id of 32 bytes,
  -- decoded times of 64 bits, unforged signatures, and holders that sign transcripts about their own
  -- endpoints only: so no relay passes off the assertion of another endpoint as its own.
  pub accepted_operator :
      (p : AuthProtocol) (w : World) (institution : String) (w' : World)
      → p.verifier ≡ as_verifier hyde v
      → IsNonce (next_nonce w)
      → IsEndpointId w.remote.id
      → run_handshake codecs p w ≡ (ok institution, w')
      → (vk : Bytes) × (time : ℕ) × (Roster.label v.roster vk ≡ some institution)
        × Operates vk w.remote.id
        × Signed vk (transcript (next_nonce w) w.remote.id time)
  accepted_operator p w institution w' uses hn hi e =
      let (vk, time, label, small, signed) = vouched p w institution w' uses e in
      (
        vk,
        time,
        label,
        own_endpoint (Operates vk) (next_nonce w) w.remote.id time hn hi small (honest vk _ signed),
        signed,
      )

module _ (codecs : Codecs) (hyde : Hyde) (v : HydeVerifier hyde)
    (typed : (bytes : Bytes) (auth : ClientAuth)
      → codecs.auth.from_bytes bytes ≡ ok auth
      → IsU64 auth.client_unix_secs)
    (bound : (vk message message' signature : Bytes)
      → hyde.verify_signature v.algorithm vk message signature ≡ ok true
      → hyde.verify_signature v.algorithm vk message' signature ≡ ok true
      → message ≡ message') where
  -- If the acceptor's handshake succeeds on two connections whose nonces or whose remote ids are not
  -- the same, then each is a complete exchange, and the assertion that arrived on the second is not
  -- the one that arrived on the first: its bytes differ, and it has another key or another
  -- signature. So an assertion that was accepted once is not accepted again under another nonce or
  -- from another endpoint. This is for nonces and endpoint ids of 32 bytes, decoded times of 64
  -- bits, and a hyde under which a signature is good for one message only under a key.
  pub no_replay :
      (p : AuthProtocol) (w x : World) (institution institution' : String) (w' x' : World)
      → p.verifier ≡ as_verifier hyde v
      → IsNonce (next_nonce w)
      → IsNonce (next_nonce x)
      → IsEndpointId w.remote.id
      → IsEndpointId x.remote.id
      → run_handshake codecs p w ≡ (ok institution, w')
      → run_handshake codecs p x ≡ (ok institution', x')
      → ¬ ((next_nonce w ≡ next_nonce x) × (w.remote.id ≡ x.remote.id))
      → (a : Accepted codecs p institution w w') × (b : Accepted codecs p institution' x x')
        × (a.auth_bytes ≢ b.auth_bytes)
        × ¬ ((a.auth.verifying_key ≡ b.auth.verifying_key) × (a.auth.signature ≡ b.auth.signature))
  no_replay p w x institution institution' w' x' uses hn hn' hi hi' e e' differ =
      let a = run_handshake-Accepted codecs p w e in
      let b = run_handshake-Accepted codecs p x e' in
      let message = transcript (next_nonce w) w.remote.id a.auth.client_unix_secs in
      let message' = transcript (next_nonce x) x.remote.id b.auth.client_unix_secs in
      let good =
        (verify_ok hyde v a.auth.verifying_key message a.auth.signature institution).0
          (rw uses at a.verified) in
      let good' =
        (verify_ok hyde v b.auth.verifying_key message' b.auth.signature institution').0
          (rw uses at b.verified) in
      let other : ¬ (
          (a.auth.verifying_key ≡ b.auth.verifying_key) × (a.auth.signature ≡ b.auth.signature)) =
        λ same.
          let one =
            bound a.auth.verifying_key message message' a.auth.signature good.1
              (rw (same.0, same.1) good'.1) in
          let parts =
            transcript_injective hn hn' hi hi' (typed a.auth_bytes a.auth a.answered)
              (typed b.auth_bytes b.auth b.answered) one in
          differ (parts.0, parts.1) in
      (a, b, λ same. other (ground (arith, same, a.answered, b.answered)), other)
