-- ===== src/Mutual/Refusal.antt =====
-- How the initiator's `handshake` of mutual.rs refuses an acceptor.
use iroh_hyde_auth.Common.{
  ℕ, ◌+◌, ◌≡◌, ◌≢◌, false, true, none, some, Option, ◌++◌, codes, arith, Bytes, length, nat_eq,
}
use iroh_hyde_auth.Error.{err, Error, clock_skew, denied, unsupported_version, concat}
use iroh_hyde_auth.Net.{EndpointId, EndpointAddr, World, arrived}
use iroh_hyde_auth.Net.Healthy.{IsHealthy}
use iroh_hyde_auth.Wire.{
  MutualCodecs, MutualChallenge, protocol_version, close_denied, role_acceptor, mutual_transcript,
}
use iroh_hyde_auth.Wire.Frames.{frame, took, Encodes, write_msg-Encodes, read_msg-Encodes}
use iroh_hyde_auth.Util.{is_skewed}
use iroh_hyde_auth.Verifier
use iroh_hyde_auth.Verifier.{VerifyError, InstitutionVerifier}
use iroh_hyde_auth.Signer.{InstitutionalSigner}
use iroh_hyde_auth.Outgoing.Completeness.{dialled-IsHealthy}
use iroh_hyde_auth.Incoming.Soundness.{now, next_nonce}
use iroh_hyde_auth.Mutual.Initiator.{handshake}
use iroh_hyde_auth.Mutual.Exchange.{greeted, drawn, mutual_greeting, is_skewed_now_lem}

-- Why a challenge is refused, the first reason that applies: the error, and the text of the close.
pub data Refused (verifier : InstitutionVerifier) (max : Option ℕ) (addr : EndpointAddr) (w : World)
    (challenge : MutualChallenge) (x : Error) (text : Bytes) : Type 0 where
  other_version :
      challenge.version ≢ protocol_version
      → x ≡ unsupported_version challenge.version
      → text ≡ codes "version"
      → Refused verifier max addr w challenge x text
  stale :
      challenge.version ≡ protocol_version
      → is_skewed max (now w) challenge.acceptor_unix_secs ≡ true
      → x ≡ clock_skew
      → text ≡ codes "skew"
      → Refused verifier max addr w challenge x text
  untrusted :
      (e : VerifyError)
      → challenge.version ≡ protocol_version
      → is_skewed max (now w) challenge.acceptor_unix_secs ≡ false
      → verifier.verify challenge.verifying_key
          (mutual_transcript role_acceptor (next_nonce w) addr.id challenge.acceptor_unix_secs)
          challenge.signature
        ≡ err e
      → x ≡ denied (concat "acceptor failed verification: " (Verifier.to_string e))
      → text ≡ codes "peer-untrusted"
      → Refused verifier max addr w challenge x text

module _ (codecs : MutualCodecs) (my_id : EndpointId) (addr : EndpointAddr)
    (signer : InstitutionalSigner) (verifier : InstitutionVerifier) (max : Option ℕ)
    (w : World) where
  -- An acceptor whose challenge has another version, a time out of the tolerance, or a signature that
  -- the verifier refuses, tested in that order, gets no response: the initiator has sent its hello
  -- only, closes with 403 and `version`, `skew` or `peer-untrusted`, and ends with the error for it.
  -- This is on a healthy network and a connection that this side has not closed, for messages that
  -- postcard gives back.
  pub initiator_refuses :
      (challenge : MutualChallenge) (hello_bytes challenge_bytes rest : Bytes) (x : Error)
      (text : Bytes)
      → IsHealthy w.remote
      → w.closed ≡ none
      → Encodes codecs.hello (mutual_greeting w) hello_bytes
      → Encodes codecs.challenge challenge challenge_bytes
      → arrived (greeted addr hello_bytes w) ≡ frame challenge_bytes ++ rest
      → Refused verifier max addr w challenge x text
      → let left = handshake codecs my_id addr signer verifier max w in
        (left.0 ≡ err x)
        × (left.1.sent ≡ w.sent ++ frame hello_bytes)
        × (left.1.closed ≡ some (close_denied, text))
  unfolding handshake
  initiator_refuses challenge hello_bytes challenge_bytes rest x text healthy open_now hello
        question e why =
      let at = took (4 + length challenge_bytes) (greeted addr hello_bytes w) in
      let skew = is_skewed_now_lem max challenge.acceptor_unix_secs at in
      let sending =
        write_msg-Encodes codecs.hello (mutual_greeting w) hello_bytes hello (drawn addr w)
          (dialled-IsHealthy addr w healthy) in
      let reading =
        read_msg-Encodes codecs.challenge challenge challenge_bytes question
          (greeted addr hello_bytes w) rest e in
      elim why [
        | other_version version error words ↦
            ground (arith, healthy.connects, healthy.opens, sending, reading)
        | stale version late error words ↦
            ground (arith, healthy.connects, healthy.opens, sending, reading, skew)
        | untrusted v version fresh refused error words ↦
            ground (arith, healthy.connects, healthy.opens, sending, reading, skew)
      ]
