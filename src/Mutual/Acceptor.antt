-- ===== src/Mutual/Acceptor.antt =====
-- What the acceptor's `handshake` of mutual.rs has done when it succeeds.
use iroh_hyde_auth.Common.{
  Bool, ℕ, suc, ◌≡◌, false, not, none, some, Option, ◌++◌, arith, Bytes, ◌+◌, length, ◌==◌, nat_eq,
}
use iroh_hyde_auth.Error.{ok, Error, map_err, transport, denied}
use iroh_hyde_auth.Net.{EndpointId, World, lift, await_map_err, open_stream}
use iroh_hyde_auth.Net.Inversion.{bind_ok, guard_ok, lift_ok}
use iroh_hyde_auth.Wire.{
  MutualCodecs, MutualHello, MutualChallenge, MutualResponse, protocol_version, max_msg,
  role_initiator, role_acceptor, mutual_transcript, read_msg, write_msg,
}
use iroh_hyde_auth.Wire.Frames.{
  IsNext, wrote, took, frame, write_msg_done, read_msg_done, read_msg_header,
}
use iroh_hyde_auth.Util.{unix_secs, whole_secs, is_skewed, is_skewed_now}
use iroh_hyde_auth.Verifier
use iroh_hyde_auth.Verifier.{InstitutionId}
use iroh_hyde_auth.Signer.{sign_blocking}
use iroh_hyde_auth.Incoming.Soundness.{now, next_nonce}
use iroh_hyde_auth.Outgoing.Exchange.{sign_blocking_done}
use iroh_hyde_auth.Mutual.{MutualAuthProtocol, Shared, accept_handshake, local_id_or_fail}

-- The test of the peer's time has passed at one reading of the clock.
pub is_skewed_now_done :
    (max : Option ℕ) (asserted : ℕ) (w : World) {skewed : Bool} {w' : World}
    → is_skewed_now {E = Error} max asserted w ≡ (ok skewed, w')
    → (is_skewed max (now w) asserted ≡ skewed)
      × (w'.remote ≡ w.remote)
      × (w'.sent ≡ w.sent)
      × (w'.rng ≡ w.rng)
      × (w'.draws ≡ w.draws)
      × (w'.clock ≡ w.clock)
unfolding is_skewed_now is_skewed
is_skewed_now_done none asserted w e = ground arith
is_skewed_now_done (some max) asserted w e = ground arith

-- A complete mutual exchange on the acceptor's side, from `w`, with the checks that it passed.
pub record Accepted (codecs : MutualCodecs) (p : MutualAuthProtocol) (shared : Shared)
    (w w' : World) : Type 0 where
  pub local_id : EndpointId
  pub published : shared.local_id ≡ some local_id
  pub hello_bytes : Bytes
  pub hello : MutualHello
  pub hello_read : IsNext hello_bytes w
  pub greeted : codecs.hello.from_bytes hello_bytes ≡ ok hello
  pub same_version : hello.version ≡ protocol_version
  pub own_signature : Bytes
  pub signed :
      p.signer.sign (mutual_transcript role_acceptor hello.nonce local_id (now w))
      ≡ ok own_signature
  pub challenge_bytes : Bytes
  pub challenged :
      codecs.challenge.to_allocvec (record {
        version = protocol_version;
        nonce = next_nonce w;
        verifying_key = p.signer.verifying_key;
        signature = own_signature;
        acceptor_unix_secs = now w;
      })
      ≡ ok challenge_bytes
  pub sent : w'.sent ≡ w.sent ++ frame challenge_bytes
  pub response_bytes : Bytes
  pub response : MutualResponse
  pub response_read :
      IsNext response_bytes (wrote (frame challenge_bytes) (took (4 + length hello_bytes) w))
  pub answered : codecs.response.from_bytes response_bytes ≡ ok response
  pub fresh :
      is_skewed p.max_skew_secs (whole_secs (w.clock (suc w.ticks))) response.initiator_unix_secs
      ≡ false
  pub institution : InstitutionId
  pub verified :
      p.verifier.verify response.verifying_key
        (mutual_transcript role_initiator (next_nonce w) w.remote.id response.initiator_unix_secs)
        response.signature
      ≡ ok institution
  pub same_remote : w'.remote ≡ w.remote

published_id : (o : Option EndpointId) {id : EndpointId} → local_id_or_fail o ≡ ok id → o ≡ some id
published_id none e = absurd (ground (arith, e))
published_id (some id) e = ground (arith, e)

module _ (codecs : MutualCodecs) (p : MutualAuthProtocol) (shared : Shared) (w : World)
    {remote : EndpointId} {w' : World} where
  -- If the acceptor's side of the mutual handshake succeeds, then every message of the exchange was
  -- as it must be. What arrived first, behind its length, decodes to a hello of this version; the
  -- acceptor had its own id published, signed that hello's nonce as acceptor and sent this in one
  -- challenge with a nonce of its own, and nothing else; what arrived behind the hello after this
  -- decodes to a response whose time is not skewed; and the verifier accepted the response's
  -- signature as initiator over the acceptor's own nonce and the connection's remote id, which is
  -- the result.
  pub accept_handshake-Accepted :
      accept_handshake codecs p shared w ≡ (ok remote, w')
      → Accepted codecs p shared w w' × (remote ≡ w.remote.id)
  unfolding accept_handshake unix_secs
  accept_handshake-Accepted e =
      bind_ok (lift (local_id_or_fail shared.local_id)) _ w e λ local_id w₁ id e₁.
        bind_ok (await_map_err transport open_stream) _ w₁ e₁ λ t w₂ o e₂.
          bind_ok (read_msg codecs.hello max_msg) _ w₂ e₂ λ hello w₃ greet e₃.
            let version = guard_ok (not (hello.version == protocol_version)) _ _ w₃ e₃ in
            let w₄ = record w₃ { draws = suc w₃.draws; ticks = suc w₃.ticks } in
            let own = mutual_transcript role_acceptor hello.nonce local_id (now w₃) in
            bind_ok (sign_blocking p.signer own) _ w₄ version.1 λ signature w₅ sign e₅.
              let msg : MutualChallenge = record {
                version = protocol_version;
                nonce = next_nonce w₃;
                verifying_key = p.signer.verifying_key;
                signature = signature;
                acceptor_unix_secs = now w₃;
              } in
              bind_ok (write_msg codecs.challenge msg) _ w₅ e₅ λ t' w₆ ask e₆.
                bind_ok (read_msg codecs.response max_msg) _ w₆ e₆ λ response w₇ answer e₇.
                  bind_ok (is_skewed_now p.max_skew_secs response.initiator_unix_secs) _ w₇ e₇
                    λ skewed w₈ skew e₈.
                      let fresh = guard_ok skewed _ _ w₈ e₈ in
                      let message =
                        mutual_transcript role_initiator (next_nonce w₃) w₈.remote.id
                          response.initiator_unix_secs in
                      bind_ok
                        (lift (
                          map_err (λ x. denied (Verifier.to_string x))
                            (p.verifier.verify response.verifying_key message response.signature)))
                        _ w₈ fresh.1
                        λ institution w₉ verify e₉.
                          let start : w₂ ≡ w = ground (arith, id, o) in
                          let hi = read_msg_done codecs.hello max_msg w₂ greet in
                          let signing = sign_blocking_done p.signer own w₄ sign in
                          let sending = write_msg_done codecs.challenge msg w₅ ask in
                          let reply = read_msg_done codecs.response max_msg w₆ answer in
                          let time =
                            is_skewed_now_done p.max_skew_secs response.initiator_unix_secs w₇
                              skew in
                          let verified =
                            lift_ok (λ x. denied (Verifier.to_string x))
                              (p.verifier.verify response.verifying_key message response.signature)
                              w₈ verify in
                          (
                            record {
                              local_id = local_id;
                              published = published_id shared.local_id (ground (arith, id));
                              hello_bytes = hi.0;
                              hello = hello;
                              hello_read = ground (
                                arith,
                                read_msg_header codecs.hello max_msg w₂ greet,
                                hi.2,
                                hi.3,
                                hi.5,
                                start,
                              );
                              greeted = hi.1;
                              same_version = ground (arith, version.0);
                              own_signature = signature;
                              signed = ground (arith, signing, start, hi.4);
                              challenge_bytes = sending.0;
                              challenged = ground (arith, sending.1, start, hi.4);
                              sent = ground (
                                arith, start, hi.4, signing.1, sending.3, reply.4, time, verified.1,
                                e₉,
                              );
                              response_bytes = reply.0;
                              response = response;
                              response_read = ground (
                                arith,
                                read_msg_header codecs.response max_msg w₆ answer,
                                reply.2,
                                reply.3,
                                reply.5,
                                sending.3,
                                signing.1,
                                hi.4,
                                start,
                              );
                              answered = reply.1;
                              fresh = ground (
                                arith, time, fresh.0, reply.4, sending.3, signing.1, hi.4, start,
                              );
                              institution = institution;
                              verified = ground (
                                arith, verified.0, time, reply.4, sending.3, signing.1, hi.4, start,
                              );
                              same_remote = ground (
                                arith, start, hi.4, signing.1, sending.3, reply.4, time, verified.1,
                                e₉,
                              );
                            },
                            ground (
                              arith, start, hi.4, signing.1, sending.3, reply.4, time, verified.1,
                              e₉,
                            ),
                          )
