-- ===== src/SshAgent/Session.antt =====
-- Whole sessions of ssh_agent.rs with an agent that speaks the protocol.
use iroh_hyde_auth.Common.{
  ◌+◌, ◌^◌, ◌≤◌, ◌<◌, ◌≡◌, refl, ◌∙◌, Option, none, String, List, [], ◌∷◌, ◌++◌, append_assoc,
  append-nil, arith, Bytes, IsU32, length, length-append, take-append, drop-append, u32_to_be_bytes,
  length-u32_to_be_bytes, u32_from_be_bytes-to_be_bytes, nat_eq, list_eq,
}
use iroh_hyde_auth.Error.{ok}
use iroh_hyde_auth.SshAgent.Reader
use iroh_hyde_auth.SshAgent.Reader.{Reader, ◌>>=◌, read_u8, read_u32, put_string}
use iroh_hyde_auth.SshAgent.Client.{
  Agent, UnixStream, SshAgentSigner, request_identities, identities_answer, sign_request,
  max_agent_msg, connect_stream, write_all, send, recv, read_exact, read_identities, sign_payload,
  connect, sign,
}
use iroh_hyde_auth.SshAgent.Layout.{ssh_string, length-ssh_string, skip, new-IsAt, read_u32-IsAt}
use iroh_hyde_auth.SshAgent.Answers.{
  read_u8-IsAt, signature_answer, length-signature_answer, read_signature-answer, identity_fields,
  AreU32, first_match, select_identity-fields,
}

-- An agent whose socket makes no errors of its own.
pub record IsReachable (agent : Agent) : Type 0 where
  pub connects : agent.connect_error ≡ none
  pub writes : (bytes : Bytes) → agent.write_error bytes ≡ none

abbrev pub opened : Agent → UnixStream
opened agent = record { agent = agent; sent = []; taken = 0 }

-- A message on the socket is framed as a field is.
send-framed :
    (agent : Agent) (payload : Bytes)
    → IsReachable agent
    → IsU32 (length payload)
    → send (opened agent) payload ≡ ok (record (opened agent) { sent = ssh_string payload })
unfolding send write_all ssh_string
send-framed agent payload c small = ground (
  arith,
  small,
  c.writes (u32_to_be_bytes (length payload)),
  c.writes (u32_to_be_bytes (length payload) ++ payload),
)

recv-framed :
    (stream : UnixStream) (answer rest : Bytes)
    → 0 < length answer
    → length answer ≤ max_agent_msg
    → stream.taken ≡ 0
    → stream.agent.reply stream.sent ≡ ssh_string answer ++ rest
    → recv stream ≡ ok (answer, record stream { taken = 4 + length answer })
unfolding recv read_exact ssh_string
recv-framed stream answer rest some_bytes fits start e =
    let header = u32_to_be_bytes (length answer) in
    let split : stream.agent.reply stream.sent ≡ header ++ (answer ++ rest) =
      e ∙ append_assoc header answer rest in
    let four = length-u32_to_be_bytes (length answer) in
    ground (
      arith,
      start,
      split,
      length-append header (answer ++ rest),
      length-append answer rest,
      four,
      take-append 4 header (answer ++ rest) four,
      drop-append 4 header (answer ++ rest) four,
      take-append (length answer) answer rest refl,
      u32_from_be_bytes-to_be_bytes (length answer) (omega (arith, fits)),
    )

-- The request for a signature, in fields.
abbrev pub signature_request : Bytes → Bytes → Bytes
signature_request key_blob message =
    sign_request ∷ (ssh_string key_blob ++ (ssh_string message ++ u32_to_be_bytes 0))

sign_payload-fields :
    (key_blob message : Bytes)
    → IsU32 (length key_blob)
    → IsU32 (length message)
    → sign_payload key_blob message ≡ signature_request key_blob message
unfolding sign_payload put_string ssh_string
sign_payload-fields key_blob message hk hm = ground (
  arith,
  hk,
  hm,
  append_assoc (u32_to_be_bytes (length key_blob) ++ key_blob)
      (u32_to_be_bytes (length message) ++ message) (u32_to_be_bytes 0),
)

-- The answer to a request for the identities.
abbrev pub identities : List (Bytes × Bytes) → Bytes
identities ids = identities_answer ∷ (u32_to_be_bytes (length ids) ++ identity_fields ids)

module _ (agents : String → Agent) where
  -- `sign` gives the signature that the agent answers with, if the socket works, and the agent, sent
  -- the framed request with the key blob, the message and no flags, answers with the framed ed25519
  -- signature; for keys and messages of fewer than 2 ^ 30 bytes, and a signature that fits in the
  -- largest answer.
  pub sign_complete :
      (s : SshAgentSigner) (message sig rest : Bytes)
      → IsReachable (agents s.sock)
      → length s.key_blob < 2 ^ 30
      → length message < 2 ^ 30
      → 24 + length sig ≤ max_agent_msg
      → (agents s.sock).reply (ssh_string (signature_request s.key_blob message))
        ≡ ssh_string (signature_answer sig) ++ rest
      → sign agents s message ≡ ok sig
  unfolding sign connect_stream
  sign_complete s message sig rest c hk hm hs e =
      let agent = agents s.sock in
      let asked = signature_request s.key_blob message in
      let size : IsU32 (length asked) = omega (
        arith,
        length-append (ssh_string s.key_blob) (ssh_string message ++ u32_to_be_bytes 0),
        length-append (ssh_string message) (u32_to_be_bytes 0),
        length-ssh_string s.key_blob,
        length-ssh_string message,
        length-u32_to_be_bytes 0,
      ) in
      let answered =
        recv-framed (record (opened agent) { sent = ssh_string asked }) (signature_answer sig) rest
          (omega arith) (omega (arith, hs, length-signature_answer sig)) refl e in
      ground (
        arith,
        c.connects,
        sign_payload-fields s.key_blob message (omega (arith, hk)) (omega (arith, hm)),
        send-framed agent asked c size,
        answered,
        read_signature-answer sig (omega (arith, hs)),
      )

  read_identities-fields :
      (sock : String) (want : Option Bytes) (ids : List (Bytes × Bytes))
      → IsU32 (length ids)
      → AreU32 ids
      → length (identities ids) < 2 ^ 64
      → read_identities sock want (identities ids) ≡ first_match sock want ids
  unfolding read_identities
  read_identities-fields sock want ids few small size =
      let kind =
        read_u8-IsAt (Reader.new (identities ids)) identities_answer
          (u32_to_be_bytes (length ids) ++ identity_fields ids) (new-IsAt (identities ids) size) in
      let count =
        read_u32-IsAt (skip 1 (Reader.new (identities ids))) (length ids) (identity_fields ids) few
          kind.1 in
      let chosen =
        select_identity-fields sock want ids (skip 4 (skip 1 (Reader.new (identities ids)))) []
          small (rw (append-nil (identity_fields ids)) count.1) in
      ground (arith, kind.0, count.0, chosen)

  -- `connect` gives the first identity of the agent's list with an ed25519 key, and with the wanted
  -- key if one is wanted, or else the error, if the socket works and the agent answers the framed
  -- request with the framed list; for a list that fits in the largest answer.
  pub connect_complete :
      (sock : String) (want : Option Bytes) (ids : List (Bytes × Bytes)) (rest : Bytes)
      → IsReachable (agents sock)
      → IsU32 (length ids)
      → AreU32 ids
      → length (identities ids) ≤ max_agent_msg
      → (agents sock).reply (ssh_string (request_identities ∷ []))
        ≡ ssh_string (identities ids) ++ rest
      → connect agents sock want ≡ first_match sock want ids
  unfolding connect connect_stream
  connect_complete sock want ids rest c few small size e =
      let agent = agents sock in
      let asked = request_identities ∷ [] in
      let answered =
        recv-framed (record (opened agent) { sent = ssh_string asked }) (identities ids) rest
          (omega arith) size refl e in
      ground (
        arith,
        c.connects,
        send-framed agent asked c (omega arith),
        answered,
        read_identities-fields sock want ids few small (omega (arith, size)),
      )
