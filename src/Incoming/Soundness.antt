-- ===== src/Incoming/Soundness.antt =====
-- What it takes for `run_handshake` of incoming.rs to succeed.
use iroh_hyde_auth.Common.{ℕ, suc, ◌≡◌, false, not, ◌++◌, arith, Bytes, ◌+◌, length, ◌==◌, nat_eq}
use iroh_hyde_auth.Error.{ok, transport, denied}
use iroh_hyde_auth.Net.{World, await_map_err, open_stream}
use iroh_hyde_auth.Net.Inversion.{bind_ok, await_ok, lift_ok, guard_ok}
use iroh_hyde_auth.Wire.{
  Codecs, ServerChallenge, ClientAuth, protocol_version, max_msg, transcript, read_msg, write_msg,
}
use iroh_hyde_auth.Wire.Frames.{
  IsNext, wrote, took, frame, write_msg_done, read_msg_done, read_msg_header,
}
use iroh_hyde_auth.Util.{unix_secs, whole_secs, is_skewed}
use iroh_hyde_auth.Verifier
use iroh_hyde_auth.Verifier.{InstitutionId}
use iroh_hyde_auth.Incoming.{AuthProtocol, run_handshake}

-- The time at which a challenge of this world is made.
abbrev pub now : World → ℕ
now w = whole_secs (w.clock w.ticks)

-- The nonce that the next challenge has.
abbrev pub next_nonce : World → Bytes
next_nonce w = w.rng w.draws

-- A complete exchange that starts at `w` and ends at `w'` with the identity `institution`: the
-- messages that were read off the connection and sent on it, what they encode to, and the checks
-- that they passed.
pub record Accepted (codecs : Codecs) (p : AuthProtocol) (institution : InstitutionId)
    (w w' : World) : Type 0 where
  pub hello_bytes : Bytes
  pub challenge_bytes : Bytes
  pub auth_bytes : Bytes
  pub auth : ClientAuth
  pub hello_read : IsNext hello_bytes w
  pub auth_read :
      IsNext auth_bytes (wrote (frame challenge_bytes) (took (4 + length hello_bytes) w))
  pub greeted : codecs.hello.from_bytes hello_bytes ≡ ok (record { version = protocol_version })
  pub challenged :
      codecs.challenge.to_allocvec
        (record { version = protocol_version; nonce = next_nonce w; server_unix_secs = now w })
      ≡ ok challenge_bytes
  pub sent : w'.sent ≡ w.sent ++ frame challenge_bytes
  pub answered : codecs.auth.from_bytes auth_bytes ≡ ok auth
  pub fresh : is_skewed p.max_skew_secs (now w) auth.client_unix_secs ≡ false
  pub verified :
      p.verifier.verify auth.verifying_key
        (transcript (next_nonce w) w.remote.id auth.client_unix_secs)
        auth.signature
      ≡ ok institution
  pub same_remote : w'.remote ≡ w.remote

opened : (w : World) {t : Unit {0}} {w' : World} → open_stream w ≡ (ok t, w') → w' ≡ w
opened w e = ground arith

module _ (codecs : Codecs) (p : AuthProtocol) (w : World) {institution : InstitutionId}
    {w' : World} where
  pub run_handshake-Accepted :
      run_handshake codecs p w ≡ (ok institution, w') → Accepted codecs p institution w w'
  unfolding run_handshake unix_secs
  run_handshake-Accepted e = bind_ok (await_map_err transport open_stream) _ w e λ t w₁ o e₁.
      bind_ok (read_msg codecs.hello max_msg) _ w₁ e₁ λ hello w₂ greet e₂.
        let version = guard_ok (not (hello.version == protocol_version)) _ _ w₂ e₂ in
        let nonce = next_nonce w₂ in
        let w₃ = record w₂ { draws = suc w₂.draws; ticks = suc w₂.ticks } in
        let msg : ServerChallenge = record {
          version = protocol_version;
          nonce = nonce;
          server_unix_secs = now w₂;
        } in
        bind_ok (write_msg codecs.challenge msg) _ w₃ version.1 λ t' w₄ challenge e₄.
          bind_ok (read_msg codecs.auth max_msg) _ w₄ e₄ λ auth w₅ answer e₅.
            let fresh =
              guard_ok (is_skewed p.max_skew_secs (now w₂) auth.client_unix_secs) _ _ w₅ e₅ in
            let verified =
              lift_ok (λ e'. denied (Verifier.to_string e'))
                (p.verifier.verify auth.verifying_key
                  (transcript nonce w₅.remote.id auth.client_unix_secs) auth.signature)
                w₅ fresh.1 in
            let start = opened w (await_ok transport open_stream w o) in
            let greeting = read_msg_done codecs.hello max_msg w₁ greet in
            let sending = write_msg_done codecs.challenge msg w₃ challenge in
            let reply = read_msg_done codecs.auth max_msg w₄ answer in
            record {
              hello_bytes = greeting.0;
              challenge_bytes = sending.0;
              auth_bytes = reply.0;
              auth = auth;
              hello_read = ground (
                arith,
                read_msg_header codecs.hello max_msg w₁ greet,
                greeting.2,
                greeting.3,
                greeting.5,
                start,
              );
              auth_read = ground (
                arith,
                read_msg_header codecs.auth max_msg w₄ answer,
                reply.2,
                reply.3,
                reply.5,
                sending.3,
                greeting.4,
                start,
                version.1,
              );
              greeted = ground (arith, greeting.1, version.0);
              challenged = ground (arith, sending.1, start, greeting.4);
              sent = ground (arith, sending, start, greeting.4, reply.4, verified.1);
              answered = reply.1;
              fresh = ground (arith, fresh.0, start, greeting.4);
              verified = ground (arith, verified.0, sending.3, reply.4, start, greeting.4);
              same_remote = ground (arith, sending, start, greeting.4, reply.4, verified.1);
            }
