-- ===== src/Mutual/Initiator.antt =====
-- `handshake` of mutual.rs: the initiator's side of the mutual exchange.
use iroh_hyde_auth.Common.{ℕ, not, Option, codes, Bytes, ◌==◌, nat_eq, if◌then◌else◌}
use iroh_hyde_auth.Error.{
  StdResult, ok, err, Error, transport, unsupported_version, clock_skew, denied, concat,
}
use iroh_hyde_auth.Net.{
  EndpointAddr, EndpointId, Io, ◌>>=◌, ◌>>◌, lift, pure, fail, await_map_err, connect, open_stream,
  random, finish, close, closed_reason,
}
use iroh_hyde_auth.Wire.{
  MutualCodecs, protocol_version, max_msg, close_denied, role_initiator, role_acceptor,
  mutual_transcript, read_msg, write_msg,
}
use iroh_hyde_auth.Util.{unix_secs, is_skewed_now}
use iroh_hyde_auth.Verifier
use iroh_hyde_auth.Verifier.{VerifyError, InstitutionId, InstitutionVerifier}
use iroh_hyde_auth.Signer.{InstitutionalSigner, sign_blocking}
use iroh_hyde_auth.Outgoing.Handshake.{verdict}

-- The acceptor has failed: close, and do not answer.
abbrev pub give_up {ℓ} : {A : Type ℓ} → Bytes → Error → Io A Error
give_up text e = do close close_denied text; fail e

-- The case of a refused acceptor, `if let Err(e) = verifier.verify(…)`.
abbrev pub refuse_untrusted : StdResult InstitutionId VerifyError → Io (Unit {0}) Error
refuse_untrusted (ok institution) = pure tt
refuse_untrusted (err e) =
    give_up (codes "peer-untrusted")
      (denied (concat "acceptor failed verification: " (Verifier.to_string e)))

module _ (codecs : MutualCodecs) where
  unfoldable pub handshake :
      EndpointId
      → EndpointAddr
      → InstitutionalSigner
      → InstitutionVerifier
      → Option ℕ
      → Io (Unit {0}) Error
  unfolding transport
  handshake my_id remote_addr signer verifier max_skew_secs = do
    await_map_err transport (connect remote_addr)
    await_map_err transport open_stream
    nonce_a ← random
    write_msg codecs.hello (record { version = protocol_version; nonce = nonce_a })
    challenge ← read_msg codecs.challenge max_msg
    if not (challenge.version == protocol_version)
        then give_up (codes "version") (unsupported_version challenge.version)
        else do
          skewed ← is_skewed_now max_skew_secs challenge.acceptor_unix_secs
          if skewed then give_up (codes "skew") clock_skew else do
            (λ w.
                refuse_untrusted
                  (verifier.verify challenge.verifying_key
                    (mutual_transcript role_acceptor nonce_a w.remote.id
                      challenge.acceptor_unix_secs)
                    challenge.signature)
                  w)
            time_a ← unix_secs
            sig_a ←
                sign_blocking signer (mutual_transcript role_initiator challenge.nonce my_id time_a)
            write_msg codecs.response (record {
              verifying_key = signer.verifying_key;
              signature = sig_a;
              initiator_unix_secs = time_a;
            })
            await_map_err transport finish
            reason ← closed_reason
            lift (verdict reason)
