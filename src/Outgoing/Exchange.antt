-- ===== src/Outgoing/Exchange.antt =====
-- What `handshake` of outgoing.rs has done when it succeeds, and when it succeeds.
use iroh_hyde_auth.Common.{
  ℕ, suc, ◌%◌, ◌^◌, ◌≡◌, refl, ◌↔◌, true, not, String, ◌++◌, arith, Bytes, ◌==◌, nat_eq,
  append_assoc,
}
use iroh_hyde_auth.Error.{ok, transport}
use iroh_hyde_auth.Net.{
  ConnectionError, application_closed, other, EndpointId, EndpointAddr, World, await_map_err,
  connect, open_stream, finish, dialled,
}
use iroh_hyde_auth.Net.Inversion.{bind_ok, guard_ok}
use iroh_hyde_auth.Wire.{
  Codecs, ServerChallenge, ClientAuth, protocol_version, max_msg, close_accepted, transcript,
  read_msg, write_msg,
}
use iroh_hyde_auth.Wire.Frames.{
  IsNext, wrote, ended, frame, write_msg_done, read_msg_done, read_msg_header,
}
use iroh_hyde_auth.Util.{unix_secs}
use iroh_hyde_auth.Signer.{InstitutionalSigner, sign_blocking}
use iroh_hyde_auth.Outgoing.Handshake.{handshake, verdict}
use iroh_hyde_auth.Incoming.Soundness.{now}
use iroh_hyde_auth.Incoming.Completeness.{greeting}

-- The peer has closed the connection with a code whose low 32 bits are the code for acceptance.
abbrev pub IsAcceptance : ConnectionError → Type 0
IsAcceptance reason =
    (code : ℕ) × (text : String) × (reason ≡ application_closed code text)
    × (code % 2 ^ 32 ≡ close_accepted)

-- The initiator takes a connection's end for success exactly if the peer closed it with a code
-- whose low 32 bits are 1: so also with 2 ^ 32 + 1, which is not the acceptor's code.
pub verdict_ok : (reason : ConnectionError) → (verdict reason ≡ ok tt) ↔ IsAcceptance reason
unfolding verdict
verdict_ok (application_closed code text) =
    (λ h. (code, text, refl, ground (arith, h)), λ found. ground (arith, found))
verdict_ok (other text) = (λ h. absurd (ground (arith, h)), λ found. absurd (ground (arith, found)))

pub sign_blocking_done :
    (signer : InstitutionalSigner) (message : Bytes) (w : World) {sig : Bytes} {w' : World}
    → sign_blocking signer message w ≡ (ok sig, w')
    → (signer.sign message ≡ ok sig) × (w' ≡ w)
unfolding sign_blocking
sign_blocking_done signer message w e = ground arith

-- The initiator's messages in an exchange that has succeeded.
pub record Proved (codecs : Codecs) (my_id : EndpointId) (addr : EndpointAddr)
    (signer : InstitutionalSigner) (w w' : World) : Type 0 where
  pub hello_bytes : Bytes
  pub challenge_bytes : Bytes
  pub auth_bytes : Bytes
  pub challenge : ServerChallenge
  pub signature : Bytes
  pub challenge_read : IsNext challenge_bytes (wrote (frame hello_bytes) (dialled addr w))
  pub greeted : codecs.hello.to_allocvec greeting ≡ ok hello_bytes
  pub challenged : codecs.challenge.from_bytes challenge_bytes ≡ ok challenge
  pub same_version : challenge.version ≡ protocol_version
  pub signed : signer.sign (transcript challenge.nonce my_id (now w)) ≡ ok signature
  pub answered :
      codecs.auth.to_allocvec (record {
        verifying_key = signer.verifying_key;
        signature = signature;
        client_unix_secs = now w;
      })
      ≡ ok auth_bytes
  pub sent : w'.sent ≡ w.sent ++ (frame hello_bytes ++ frame auth_bytes)
  pub finished : w'.finished ≡ true
  pub closed : IsAcceptance (w.remote.reason w'.sent)

module _ (codecs : Codecs) (my_id : EndpointId) (addr : EndpointAddr) (signer : InstitutionalSigner)
    (w : World) {w' : World} where
  -- If the initiator's handshake succeeds, it has sent a hello; what arrived after it, behind its
  -- length, decodes to a challenge of this version; it has then sent an assertion with a signature
  -- of its own signer over the transcript of that challenge's nonce, its own endpoint id and its own
  -- time, and nothing else, and has finished its stream; and the peer has closed the connection with
  -- a code whose low 32 bits are the code for acceptance.
  pub handshake-Proved :
      handshake codecs my_id addr signer w ≡ (ok tt, w') → Proved codecs my_id addr signer w w'
  unfolding handshake unix_secs
  handshake-Proved e = bind_ok (await_map_err transport (connect addr)) _ w e λ t w₁ dial e₁.
      bind_ok (await_map_err transport open_stream) _ w₁ e₁ λ t' w₂ o e₂.
        bind_ok (write_msg codecs.hello greeting) _ w₂ e₂ λ t'' w₃ hi e₃.
          bind_ok (read_msg codecs.challenge max_msg) _ w₃ e₃ λ challenge w₄ asked e₄.
            let version = guard_ok (not (challenge.version == protocol_version)) _ _ w₄ e₄ in
            let w₅ = record w₄ { ticks = suc w₄.ticks } in
            let message = transcript challenge.nonce my_id (now w₄) in
            bind_ok (sign_blocking signer message) _ w₅ version.1 λ signature w₆ sign e₆.
              let auth : ClientAuth = record {
                verifying_key = signer.verifying_key;
                signature = signature;
                client_unix_secs = now w₄;
              } in
              bind_ok (write_msg codecs.auth auth) _ w₆ e₆ λ t₃ w₇ answer e₇.
                bind_ok (await_map_err transport finish) _ w₇ e₇ λ t₄ w₈ fin e₈.
                  let dials : w₁ ≡ dialled addr w = ground (arith, dial) in
                  let opens : w₂ ≡ w₁ = ground (arith, o) in
                  let ends : w₈ ≡ ended w₇ = ground (arith, fin) in
                  let hello = write_msg_done codecs.hello greeting w₂ hi in
                  let question = read_msg_done codecs.challenge max_msg w₃ asked in
                  let signing = sign_blocking_done signer message w₅ sign in
                  let sending = write_msg_done codecs.auth auth w₆ answer in
                  record {
                    hello_bytes = hello.0;
                    challenge_bytes = question.0;
                    auth_bytes = sending.0;
                    challenge = challenge;
                    signature = signature;
                    challenge_read = ground (
                      arith,
                      read_msg_header codecs.challenge max_msg w₃ asked,
                      question.2,
                      question.3,
                      question.5,
                      hello.3,
                      opens,
                      dials,
                    );
                    greeted = hello.1;
                    challenged = question.1;
                    same_version = ground (arith, version.0);
                    signed = ground (arith, signing, dials, opens, hello.3, question.4);
                    answered = ground (arith, sending.1, dials, opens, hello.3, question.4);
                    sent = ground (
                      arith,
                      dials,
                      opens,
                      ends,
                      hello.3,
                      question.4,
                      signing.1,
                      sending.3,
                      e₈,
                      append_assoc w.sent (frame hello.0) (frame sending.0),
                    );
                    finished = ground (arith, ends, e₈);
                    closed = (verdict_ok (w.remote.reason w'.sent)).0 (
                        ground (
                          arith, dials, opens, ends, hello.3, question.4, signing.1, sending.3, e₈,
                        ));
                  }
