-- ===== src/Mutual/Judgement.antt =====
-- What each side of the mutual handshake in mutual.rs makes of the other's message, and what it does
-- where that message does not come.
use iroh_hyde_auth.Common.{
  ℕ, suc, ◌+◌, ◌≡◌, none, some, Option, [], ◌++◌, arith, Bytes, length, nat_eq, if◌then◌else◌,
}
use iroh_hyde_auth.Error.{Result, ok, err, Error, map_err, transport, clock_skew, denied, concat}
use iroh_hyde_auth.Net.{EndpointId, EndpointAddr, World, arrived}
use iroh_hyde_auth.Net.Healthy.{IsHealthy}
use iroh_hyde_auth.Wire.{
  MutualCodecs, MutualHello, MutualChallenge, MutualResponse, protocol_version, max_msg,
  role_initiator, role_acceptor, mutual_transcript,
}
use iroh_hyde_auth.Wire.Frames.{
  ended, frame, wrote, took, Encodes, write_msg-Encodes, read_msg-Encodes,
}
use iroh_hyde_auth.Wire.Starved.{read_msg_starved}
use iroh_hyde_auth.Util.{unix_secs, whole_secs, is_skewed}
use iroh_hyde_auth.Verifier
use iroh_hyde_auth.Verifier.{VerifyError, InstitutionId, InstitutionVerifier}
use iroh_hyde_auth.Signer.{InstitutionalSigner, sign_blocking}
use iroh_hyde_auth.Outgoing.Completeness.{dialled-IsHealthy}
use iroh_hyde_auth.Incoming.Soundness.{now, next_nonce}
use iroh_hyde_auth.Outgoing.Handshake.{verdict}
use iroh_hyde_auth.Mutual.{MutualAuthProtocol, Shared, accept_handshake}
use iroh_hyde_auth.Mutual.Initiator.{handshake}
use iroh_hyde_auth.Mutual.Exchange.{
  drawn, challenge_of, challenged, timed, greeted, checked, response_of, mutual_greeting,
  is_skewed_now_lem,
}

-- The acceptor's judgement of a response, as the code tests it: the time at the next reading of the
-- clock, then the signature in the role of initiator.
abbrev pub judgement_of_response :
    MutualAuthProtocol → World → MutualResponse → Result InstitutionId
judgement_of_response p w response =
    if is_skewed p.max_skew_secs (whole_secs (w.clock (suc w.ticks))) response.initiator_unix_secs
    then err clock_skew
    else map_err (λ e. denied (Verifier.to_string e))
        (p.verifier.verify response.verifying_key
          (mutual_transcript role_initiator (next_nonce w) w.remote.id response.initiator_unix_secs)
          response.signature)

abbrev pub for_remote : EndpointId → Result InstitutionId → Result EndpointId
for_remote id (ok institution) = ok id
for_remote id (err e) = err e

module _ (codecs : MutualCodecs) (p : MutualAuthProtocol) (shared : Shared) (w : World)
    (local_id : EndpointId) (hello : MutualHello)
    (signature hello_bytes challenge_bytes rest : Bytes) (own : shared.local_id ≡ some local_id)
    (healthy : IsHealthy w.remote) (joins : w.join_error ≡ none)
    (greet : Encodes codecs.hello hello hello_bytes)
    (ask : Encodes codecs.challenge (challenge_of p.signer signature w) challenge_bytes)
    (version : hello.version ≡ protocol_version)
    (signed : p.signer.sign (mutual_transcript role_acceptor hello.nonce local_id (now w))
      ≡ ok signature)
    (e : arrived w ≡ frame hello_bytes ++ rest) where
  pub accept_handshake_unanswered :
      arrived (challenged hello_bytes challenge_bytes w) ≡ []
      → accept_handshake codecs p shared w ≡ (
        err (transport (w.remote.read_error (challenged hello_bytes challenge_bytes w).sent)),
        challenged hello_bytes challenge_bytes w,
      )
  unfolding accept_handshake unix_secs sign_blocking
  accept_handshake_unanswered e' = ground (
    arith,
    own,
    healthy.opens,
    joins,
    signed,
    version,
    read_msg-Encodes codecs.hello hello hello_bytes greet w rest e,
    write_msg-Encodes codecs.challenge (challenge_of p.signer signature w) challenge_bytes ask
        (record (took (4 + length hello_bytes) w) { draws = suc w.draws; ticks = suc w.ticks })
        healthy,
    read_msg_starved codecs.response max_msg (challenged hello_bytes challenge_bytes w) e',
  )

  pub accept_handshake_judges :
      (response : MutualResponse) (response_bytes rest' : Bytes)
      → Encodes codecs.response response response_bytes
      → arrived (challenged hello_bytes challenge_bytes w) ≡ frame response_bytes ++ rest'
      → accept_handshake codecs p shared w ≡ (
        for_remote w.remote.id (judgement_of_response p w response),
        timed p.max_skew_secs
            (took (4 + length response_bytes) (challenged hello_bytes challenge_bytes w)),
      )
  unfolding accept_handshake unix_secs sign_blocking
  accept_handshake_judges response response_bytes rest' answer e' = ground (
    arith,
    own,
    healthy.opens,
    joins,
    signed,
    version,
    read_msg-Encodes codecs.hello hello hello_bytes greet w rest e,
    write_msg-Encodes codecs.challenge (challenge_of p.signer signature w) challenge_bytes ask
        (record (took (4 + length hello_bytes) w) { draws = suc w.draws; ticks = suc w.ticks })
        healthy,
    read_msg-Encodes codecs.response response response_bytes answer
        (challenged hello_bytes challenge_bytes w) rest' e',
    is_skewed_now_lem p.max_skew_secs response.initiator_unix_secs
        (took (4 + length response_bytes) (challenged hello_bytes challenge_bytes w)),
  )

-- The initiator's judgement of a challenge: its time, if there is a tolerance, then its signature in
-- the role of acceptor.
abbrev pub judgement_of_challenge :
    InstitutionVerifier → Option ℕ → EndpointAddr → World → MutualChallenge → Result InstitutionId
judgement_of_challenge verifier max addr w challenge =
    if is_skewed max (now w) challenge.acceptor_unix_secs
    then err clock_skew
    else map_err (λ e. denied (concat "acceptor failed verification: " (Verifier.to_string e)))
        (verifier.verify challenge.verifying_key
          (mutual_transcript role_acceptor (next_nonce w) addr.id challenge.acceptor_unix_secs)
          challenge.signature)

module _ (codecs : MutualCodecs) (my_id : EndpointId) (addr : EndpointAddr)
    (signer : InstitutionalSigner) (verifier : InstitutionVerifier) (max : Option ℕ) (w : World)
    (hello_bytes : Bytes) (healthy : IsHealthy w.remote)
    (hello : Encodes codecs.hello (mutual_greeting w) hello_bytes) where
  pub mutual_handshake_unanswered :
      arrived (greeted addr hello_bytes w) ≡ []
      → handshake codecs my_id addr signer verifier max w ≡ (
        err (transport (w.remote.read_error (greeted addr hello_bytes w).sent)),
        greeted addr hello_bytes w,
      )
  unfolding handshake
  mutual_handshake_unanswered e = ground (
    arith,
    healthy.connects,
    healthy.opens,
    write_msg-Encodes codecs.hello (mutual_greeting w) hello_bytes hello (drawn addr w)
        (dialled-IsHealthy addr w healthy),
    read_msg_starved codecs.challenge max_msg (greeted addr hello_bytes w) e,
  )

  pub mutual_handshake_refuses :
      (challenge : MutualChallenge) (challenge_bytes rest : Bytes) (x : Error)
      → Encodes codecs.challenge challenge challenge_bytes
      → challenge.version ≡ protocol_version
      → arrived (greeted addr hello_bytes w) ≡ frame challenge_bytes ++ rest
      → judgement_of_challenge verifier max addr w challenge ≡ err x
      → ((handshake codecs my_id addr signer verifier max w).0 ≡ err x)
        × ((handshake codecs my_id addr signer verifier max w).1.sent ≡ w.sent ++ frame hello_bytes)
  unfolding handshake
  mutual_handshake_refuses challenge challenge_bytes rest x question version e refused =
      let at = took (4 + length challenge_bytes) (greeted addr hello_bytes w) in
      let skew = is_skewed_now_lem max challenge.acceptor_unix_secs at in
      let sending =
        write_msg-Encodes codecs.hello (mutual_greeting w) hello_bytes hello (drawn addr w)
          (dialled-IsHealthy addr w healthy) in
      let reading =
        read_msg-Encodes codecs.challenge challenge challenge_bytes question
          (greeted addr hello_bytes w) rest e in
      (
        ground (arith, healthy.connects, healthy.opens, sending, reading, version, skew, refused),
        ground (arith, healthy.connects, healthy.opens, sending, reading, version, skew, refused),
      )

  pub mutual_handshake_answers :
      (challenge : MutualChallenge) (signature challenge_bytes response_bytes rest : Bytes)
      (institution : InstitutionId)
      → w.join_error ≡ none
      → Encodes codecs.challenge challenge challenge_bytes
      → Encodes codecs.response
          (response_of signer signature (checked addr max hello_bytes challenge_bytes w))
          response_bytes
      → challenge.version ≡ protocol_version
      → arrived (greeted addr hello_bytes w) ≡ frame challenge_bytes ++ rest
      → judgement_of_challenge verifier max addr w challenge ≡ ok institution
      → signer.sign (
          mutual_transcript role_initiator challenge.nonce my_id
            (now (checked addr max hello_bytes challenge_bytes w)))
        ≡ ok signature
      → let made = checked addr max hello_bytes challenge_bytes w in
        let done = ended (wrote (frame response_bytes) (record made { ticks = suc made.ticks })) in
        handshake codecs my_id addr signer verifier max w
        ≡ (verdict (w.remote.reason done.sent), done)
  unfolding handshake unix_secs sign_blocking
  mutual_handshake_answers challenge signature challenge_bytes response_bytes rest institution joins
        question answer version e accepted signed =
      let start = dialled-IsHealthy addr w healthy in
      let made = checked addr max hello_bytes challenge_bytes w in
      ground (
        arith,
        healthy.connects,
        healthy.opens,
        healthy.finishes,
        joins,
        version,
        write_msg-Encodes codecs.hello (mutual_greeting w) hello_bytes hello (drawn addr w) start,
        read_msg-Encodes codecs.challenge challenge challenge_bytes question
            (greeted addr hello_bytes w) rest e,
        is_skewed_now_lem max challenge.acceptor_unix_secs
            (took (4 + length challenge_bytes) (greeted addr hello_bytes w)),
        accepted,
        signed,
        write_msg-Encodes codecs.response (response_of signer signature made) response_bytes answer
            (record made { ticks = suc made.ticks }) start,
      )
