-- ===== src/Mutual/Dialer.antt =====
-- What the initiator's `handshake` of mutual.rs has done when it succeeds, and when it refuses the
-- acceptor.
use iroh_hyde_auth.Common.{
  Bool, ℕ, suc, ◌≡◌, refl, true, false, not, Option, ◌++◌, append_assoc, arith, Bytes, ◌==◌, nat_eq,
  if◌then◌else◌,
}
use iroh_hyde_auth.Error.{StdResult, ok, err, Error, transport}
use iroh_hyde_auth.Net.{
  EndpointId, EndpointAddr, World, Io, await_map_err, connect, open_stream, finish, dialled,
}
use iroh_hyde_auth.Net.Inversion.{bind_ok}
use iroh_hyde_auth.Wire.{
  MutualCodecs, MutualHello, MutualChallenge, MutualResponse, protocol_version, max_msg,
  role_initiator, role_acceptor, mutual_transcript, read_msg, write_msg,
}
use iroh_hyde_auth.Wire.Frames.{
  IsNext, wrote, ended, frame, write_msg_done, read_msg_done, read_msg_header,
}
use iroh_hyde_auth.Util.{unix_secs, whole_secs, is_skewed, is_skewed_now}
use iroh_hyde_auth.Verifier.{VerifyError, InstitutionId, InstitutionVerifier}
use iroh_hyde_auth.Signer.{InstitutionalSigner, sign_blocking}
use iroh_hyde_auth.Incoming.Soundness.{now, next_nonce}
use iroh_hyde_auth.Outgoing.Exchange.{IsAcceptance, verdict_ok, sign_blocking_done}
use iroh_hyde_auth.Mutual.Initiator.{handshake, give_up, refuse_untrusted}
use iroh_hyde_auth.Mutual.Acceptor.{is_skewed_now_done}

-- A block that gives up in one branch has taken the other, if it succeeds.
stayed :
    (b : Bool) (text : Bytes) (e : Error) (m : Io (Unit {0}) Error) (w : World) {w' : World}
    → (if b then give_up text e else m) w ≡ (ok tt, w')
    → (b ≡ false) × (m w ≡ (ok tt, w'))
stayed true text e m w h = absurd (ground (arith, h))
stayed false text e m w h = (refl, h)

trusted :
    (r : StdResult InstitutionId VerifyError) (w : World) {t : Unit {0}} {w' : World}
    → refuse_untrusted r w ≡ (ok t, w')
    → (institution : InstitutionId) × (r ≡ ok institution) × (w' ≡ w)
trusted (ok institution) w e = (institution, refl, ground (arith, e))
trusted (err x) w e = absurd (ground (arith, e))

-- A complete mutual exchange on the initiator's side, with the checks that it passed.
pub record Proved (codecs : MutualCodecs) (my_id : EndpointId) (addr : EndpointAddr)
    (signer : InstitutionalSigner) (verifier : InstitutionVerifier) (max : Option ℕ) (w w' : World)
    : Type 0 where
  pub hello_bytes : Bytes
  pub greeted :
      codecs.hello.to_allocvec (record { version = protocol_version; nonce = next_nonce w })
      ≡ ok hello_bytes
  pub challenge_bytes : Bytes
  pub challenge : MutualChallenge
  pub challenge_read : IsNext challenge_bytes (wrote (frame hello_bytes) (dialled addr w))
  pub challenged : codecs.challenge.from_bytes challenge_bytes ≡ ok challenge
  pub same_version : challenge.version ≡ protocol_version
  pub fresh : is_skewed max (now w) challenge.acceptor_unix_secs ≡ false
  pub institution : InstitutionId
  pub verified :
      verifier.verify challenge.verifying_key
        (mutual_transcript role_acceptor (next_nonce w) addr.id challenge.acceptor_unix_secs)
        challenge.signature
      ≡ ok institution
  pub tick : ℕ
  pub time : ℕ
  pub read_clock : time ≡ whole_secs (w.clock tick)
  pub signature : Bytes
  pub signed :
      signer.sign (mutual_transcript role_initiator challenge.nonce my_id time) ≡ ok signature
  pub response_bytes : Bytes
  pub answered :
      codecs.response.to_allocvec (record {
        verifying_key = signer.verifying_key;
        signature = signature;
        initiator_unix_secs = time;
      })
      ≡ ok response_bytes
  pub sent : w'.sent ≡ w.sent ++ (frame hello_bytes ++ frame response_bytes)
  pub finished : w'.finished ≡ true
  pub closed : IsAcceptance (w.remote.reason w'.sent)

module _ (codecs : MutualCodecs) (my_id : EndpointId) (addr : EndpointAddr)
    (signer : InstitutionalSigner) (verifier : InstitutionVerifier) (max : Option ℕ) (w : World)
    {w' : World} where
  -- If the initiator's side of the mutual handshake succeeds, it has sent a hello with its own
  -- nonce; what arrived after it, behind its length, decodes to a challenge of this version whose
  -- time is not skewed; its verifier accepted the challenge's signature, in the role of acceptor,
  -- over the initiator's own nonce and the id that was dialled; it has itself signed that
  -- challenge's nonce with its own id as initiator and a time of its own clock, has sent its hello
  -- and that response and nothing else, and finished its stream; and the peer closed the connection
  -- with a code whose low 32 bits are the code for acceptance.
  pub mutual_handshake-Proved :
      handshake codecs my_id addr signer verifier max w ≡ (ok tt, w')
      → Proved codecs my_id addr signer verifier max w w'
  unfolding handshake unix_secs
  mutual_handshake-Proved e = bind_ok (await_map_err transport (connect addr)) _ w e λ t w₁ dial e₁.
      bind_ok (await_map_err transport open_stream) _ w₁ e₁ λ t' w₂ o e₂.
        let w₃ = record w₂ { draws = suc w₂.draws } in
        let greeting : MutualHello = record { version = protocol_version; nonce = next_nonce w₂ } in
        bind_ok (write_msg codecs.hello greeting) _ w₃ e₂ λ t'' w₄ hi e₄.
          bind_ok (read_msg codecs.challenge max_msg) _ w₄ e₄ λ challenge w₅ ask e₅.
            let version = stayed (not (challenge.version == protocol_version)) _ _ _ w₅ e₅ in
            bind_ok (is_skewed_now max challenge.acceptor_unix_secs) _ w₅ version.1
              λ skewed w₆ skew e₆.
                let fresh = stayed skewed _ _ _ w₆ e₆ in
                let message =
                  mutual_transcript role_acceptor (next_nonce w₂) w₆.remote.id
                    challenge.acceptor_unix_secs in
                let checked = verifier.verify challenge.verifying_key message challenge.signature in
                bind_ok (refuse_untrusted checked) _ w₆ fresh.1 λ t₃ w₇ trust e₇.
                  let w₈ = record w₇ { ticks = suc w₇.ticks } in
                  let own = mutual_transcript role_initiator challenge.nonce my_id (now w₇) in
                  bind_ok (sign_blocking signer own) _ w₈ e₇ λ signature w₉ sign e₉.
                    let response : MutualResponse = record {
                      verifying_key = signer.verifying_key;
                      signature = signature;
                      initiator_unix_secs = now w₇;
                    } in
                    bind_ok (write_msg codecs.response response) _ w₉ e₉ λ t₄ w₁₀ answer e₁₀.
                      bind_ok (await_map_err transport finish) _ w₁₀ e₁₀ λ t₅ w₁₁ fin e₁₁.
                        let start : w₂ ≡ dialled addr w = ground (arith, dial, o) in
                        let ends : w₁₁ ≡ ended w₁₀ = ground (arith, fin) in
                        let hello = write_msg_done codecs.hello greeting w₃ hi in
                        let question = read_msg_done codecs.challenge max_msg w₄ ask in
                        let time = is_skewed_now_done max challenge.acceptor_unix_secs w₅ skew in
                        let trusting = trusted checked w₆ trust in
                        let signing = sign_blocking_done signer own w₈ sign in
                        let sending = write_msg_done codecs.response response w₉ answer in
                        record {
                          hello_bytes = hello.0;
                          greeted = ground (arith, hello.1, start);
                          challenge_bytes = question.0;
                          challenge = challenge;
                          challenge_read = ground (
                            arith,
                            read_msg_header codecs.challenge max_msg w₄ ask,
                            question.2,
                            question.3,
                            question.5,
                            hello.3,
                            start,
                          );
                          challenged = question.1;
                          same_version = ground (arith, version.0);
                          fresh = ground (arith, time, fresh.0, question.4, hello.3, start);
                          institution = trusting.0;
                          verified = ground (arith, trusting.1, time, question.4, hello.3, start);
                          tick = w₇.ticks;
                          time = now w₇;
                          read_clock = ground (arith, time, trusting.2, question.4, hello.3, start);
                          signature = signature;
                          signed = signing.0;
                          response_bytes = sending.0;
                          answered = sending.1;
                          sent = ground (
                            arith,
                            start,
                            hello.3,
                            question.4,
                            time,
                            trusting.2,
                            signing.1,
                            sending.3,
                            ends,
                            e₁₁,
                            append_assoc w.sent (frame hello.0) (frame sending.0),
                          );
                          finished = ground (arith, ends, e₁₁);
                          closed = (verdict_ok (w.remote.reason w'.sent)).0 (
                              ground (
                                arith, start, hello.3, question.4, time, trusting.2, signing.1,
                                sending.3, ends, e₁₁,
                              ));
                        }
