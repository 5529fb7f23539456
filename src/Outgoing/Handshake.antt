-- ===== src/Outgoing/Handshake.antt =====
-- `handshake` of outgoing.rs: the initiator's side of the exchange.
use iroh_hyde_auth.Common.{◌%◌, ◌^◌, not, ◌==◌, nat_eq, if◌then◌else◌}
use iroh_hyde_auth.Error.{ok, err, Error, Result, transport, unsupported_version, denied}
use iroh_hyde_auth.Net.{
  ConnectionError, application_closed, other, EndpointAddr, EndpointId, Io, ◌>>=◌, ◌>>◌, lift, fail,
  await_map_err, connect, open_stream, finish, closed_reason,
}
use iroh_hyde_auth.Wire.{
  Codecs, protocol_version, max_msg, close_accepted, close_denied, transcript, read_msg, write_msg,
}
use iroh_hyde_auth.Util.{unix_secs}
use iroh_hyde_auth.Signer.{InstitutionalSigner, sign_blocking}

-- How the initiator reads the end of the connection. The close code is a number below 2 ^ 62, and
-- `as u32` keeps its low 32 bits.
unfoldable pub verdict : ConnectionError → Result (Unit {0})
unfolding transport
verdict (application_closed code text) =
    let c = code % 2 ^ 32 in
    if c == close_accepted
    then ok tt
    else if c == close_denied
    then err (denied "rejected by remote acceptor")
    else err (transport text)
verdict (other text) = err (transport text)

module _ (codecs : Codecs) where
  -- `my_id` is `endpoint.id()`.
  unfoldable pub handshake : EndpointId → EndpointAddr → InstitutionalSigner → Io (Unit {0}) Error
  unfolding transport
  handshake my_id remote_addr signer = do
    await_map_err transport (connect remote_addr)
    await_map_err transport open_stream
    write_msg codecs.hello (record { version = protocol_version })
    challenge ← read_msg codecs.challenge max_msg
    if not (challenge.version == protocol_version)
        then fail (unsupported_version challenge.version)
        else do
          now ← unix_secs
          signature ← sign_blocking signer (transcript challenge.nonce my_id now)
          write_msg codecs.auth (record {
            verifying_key = signer.verifying_key;
            signature = signature;
            client_unix_secs = now;
          })
          await_map_err transport finish
          reason ← closed_reason
          lift (verdict reason)
