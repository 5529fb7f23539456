-- ===== src/SshAgent/Client.antt =====
-- `SshAgentSigner` of ssh_agent.rs, and `connect`, `send` and `recv` over the agent's socket. What
-- the agent does is a function of the bytes that were written to it.
use iroh_hyde_auth.Common.{
  ℕ, zero, suc, ◌+◌, ◌^◌, Bool, true, not, ◌||◌, Option, none, some, String, [], ◌∷◌, ◌++◌, Bytes,
  length, take, drop, ltb, ◌==◌, nat_eq, list_eq, u32_to_be_bytes, u32_from_be_bytes, if◌then◌else◌,
}
use iroh_hyde_auth.Error.{ok, err, Error, Result, signer_failed, concat}
use iroh_hyde_auth.Signer.{InstitutionalSigner}
use iroh_hyde_auth.SshAgent.Reader
use iroh_hyde_auth.SshAgent.Reader.{
  Reader, ◌>>=◌, read_u8, read_u32, read_string, put_string, ed25519_key_type,
  parse_ed25519_public_key,
}

-- The agent behind a socket; an error is the text that it displays.
pub record Agent : Type 0 where
  pub connect_error : Option String
  pub write_error : Bytes → Option String
  pub reply : Bytes → Bytes
  pub read_error : Bytes → String

-- A connected `UnixStream`: what was written to it, and how much was read.
pub record UnixStream : Type 0 where
  pub agent : Agent
  pub sent : Bytes
  pub taken : ℕ

abbrev pub request_identities : ℕ
request_identities = 11

abbrev pub identities_answer : ℕ
identities_answer = 12

abbrev pub sign_request : ℕ
sign_request = 13

abbrev pub sign_response : ℕ
sign_response = 14

-- `1 << 20`
abbrev pub max_agent_msg : ℕ
max_agent_msg = 2 ^ 20

abbrev connected : Agent → Option String → Result UnixStream
connected agent none = ok (record { agent = agent; sent = []; taken = 0 })
connected agent (some e) = err (signer_failed (concat "ssh-agent connect: " e))

-- the function `connect` of the wire helpers
unfoldable pub connect_stream : Agent → Result UnixStream
connect_stream agent = connected agent agent.connect_error

unfoldable pub write_all : UnixStream → Bytes → Result UnixStream
write_all stream bytes = elim (stream.agent.write_error (stream.sent ++ bytes)) [
  | none ↦ ok (record stream { sent = stream.sent ++ bytes })
  | some e ↦ err (signer_failed (concat "ssh-agent write: " e))
]

unfoldable pub send : UnixStream → Bytes → Result UnixStream
unfolding write_all
send stream payload =
    if not (ltb (length payload) (2 ^ 32))
    then err (signer_failed "agent msg too large")
    else do stream' ← write_all stream (u32_to_be_bytes (length payload)); write_all stream' payload

abbrev arrived : UnixStream → Bytes
arrived stream = drop stream.taken (stream.agent.reply stream.sent)

unfoldable pub read_exact : UnixStream → ℕ → Result (Bytes × UnixStream)
read_exact stream n =
    if ltb (length (arrived stream)) n
    then err (signer_failed (concat "ssh-agent read: " (stream.agent.read_error stream.sent)))
    else ok (take n (arrived stream), record stream { taken = stream.taken + n })

unfoldable pub recv : UnixStream → Result (Bytes × UnixStream)
unfolding read_exact
recv stream = do
  (len, stream') ← read_exact stream 4
  let n = u32_from_be_bytes len
  if n == 0 || ltb max_agent_msg n
      then err (signer_failed "ssh-agent: bad message length")
      else read_exact stream' n

pub record SshAgentSigner : Type 0 where
  pub sock : String
  pub key_blob : Bytes
  pub public_key : Bytes

-- `want_public_key.map(|w| w == pk).unwrap_or(true)`
abbrev pub wanted : Option Bytes → Bytes → Bool
wanted none pk = true
wanted (some w) pk = w == pk

abbrev pub no_match : Error
no_match = signer_failed "ssh-agent: no matching ed25519 identity loaded"

abbrev pub choose :
    String → Option Bytes → Bytes → Option Bytes → Result SshAgentSigner → Result SshAgentSigner
choose sock want key_blob none rest = rest
choose sock want key_blob (some pk) rest =
    if wanted want pk
    then ok (record { sock = sock; key_blob = key_blob; public_key = pk })
    else rest

-- The loop over the identities of the answer.
unfoldable pub select_identity : String → Option Bytes → ℕ → Reader → Result SshAgentSigner
select_identity sock want zero r = err no_match
select_identity sock want (suc count) r = do
  (key_blob, r') ← read_string r
  (comment, r'') ← read_string r'
  choose sock want key_blob (parse_ed25519_public_key key_blob)
      (select_identity sock want count r'')

-- The answer to `REQUEST_IDENTITIES`.
unfoldable pub read_identities : String → Option Bytes → Bytes → Result SshAgentSigner
read_identities sock want resp = do
  (kind, r) ← read_u8 (Reader.new resp)
  if not (kind == identities_answer)
      then err (signer_failed "ssh-agent: unexpected identities reply")
      else do (count, r') ← read_u32 r; select_identity sock want count r'

-- The answer to `SIGN_REQUEST`: string( string "ssh-ed25519" || string raw_sig ).
unfoldable pub read_signature : Bytes → Result Bytes
read_signature resp = do
  (kind, r) ← read_u8 (Reader.new resp)
  if not (kind == sign_response) then err (signer_failed "ssh-agent: signing was refused") else do
    (sig_blob, rest) ← read_string r
    (sig_type, sr) ← read_string (Reader.new sig_blob)
    if not (sig_type == ed25519_key_type)
        then err (signer_failed "ssh-agent: non-ed25519 signature")
        else do (raw_sig, end) ← read_string sr; ok raw_sig

-- The request for a signature: the key, the message, and flags 0.
unfoldable pub sign_payload : Bytes → Bytes → Bytes
sign_payload key_blob message =
    put_string (put_string (sign_request ∷ []) key_blob) message ++ u32_to_be_bytes 0

-- `agents` is who listens at a path.
module _ (agents : String → Agent) where
  unfoldable pub connect : String → Option Bytes → Result SshAgentSigner
  connect sock want_public_key = do
    stream ← connect_stream (agents sock)
    stream' ← send stream (request_identities ∷ [])
    (resp, rest) ← recv stream'
    read_identities sock want_public_key resp

  abbrev connect_env : Option String → Result SshAgentSigner
  connect_env none = err (signer_failed "SSH_AUTH_SOCK is not set")
  connect_env (some sock) = connect sock none

  -- by the value of `SSH_AUTH_SOCK`
  unfoldable pub from_env : Option String → Result SshAgentSigner
  from_env auth_sock = connect_env auth_sock

  unfoldable pub sign : SshAgentSigner → Bytes → Result Bytes
  sign s message = do
    stream ← connect_stream (agents s.sock)
    stream' ← send stream (sign_payload s.key_blob message)
    (resp, rest) ← recv stream'
    read_signature resp

  abbrev pub as_signer : SshAgentSigner → InstitutionalSigner
  as_signer s = record { verifying_key = s.public_key; sign = λ message. sign s message }
