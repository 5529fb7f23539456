-- ===== src/SshAgent/Failures.antt =====
-- What ssh_agent.rs makes of a socket that fails, call by call.
use iroh_hyde_auth.Common.{
  ℕ, ◌^◌, ◌≤◌, ◌<◌, ◌≡◌, ◌⊎◌, Option, none, some, String, [], ◌∷◌, ◌++◌, arith, Bytes, IsU32,
  length, length-append, take-append, drop-append, u32_to_be_bytes, length-u32_to_be_bytes,
  u32_from_be_bytes-to_be_bytes, nat_eq, list_eq,
}
use iroh_hyde_auth.Error.{ok, err, Error, Result, signer_failed, concat}
use iroh_hyde_auth.SshAgent.Reader.{◌>>=◌}
use iroh_hyde_auth.SshAgent.Client.{
  Agent, UnixStream, SshAgentSigner, request_identities, max_agent_msg, connect_stream, write_all,
  send, recv, read_exact, sign_payload, connect, sign,
}

-- A request on the socket: its length, and its bytes.
abbrev pub framed : Bytes → Bytes
framed request = u32_to_be_bytes (length request) ++ request

-- The socket has taken all of the request.
pub record IsSent (agent : Agent) (request : Bytes) : Type 0 where
  pub connects : agent.connect_error ≡ none
  pub fits : IsU32 (length request)
  pub length_written : agent.write_error (u32_to_be_bytes (length request)) ≡ none
  pub written : agent.write_error (framed request) ≡ none

-- Why an exchange fails on the socket, the first reason that applies, with the error for it: no
-- connection; a request that does not fit; a write of its length or of its bytes that fails; an answer that
-- ends within its length; a length that is zero or too large; an answer that ends within its bytes.
pub data Failed (agent : Agent) (request : Bytes) (x : Error) : Type 0 where
  unconnected :
      (e : String)
      → agent.connect_error ≡ some e
      → x ≡ signer_failed (concat "ssh-agent connect: " e)
      → Failed agent request x
  oversized :
      agent.connect_error ≡ none
      → 2 ^ 32 ≤ length request
      → x ≡ signer_failed "agent msg too large"
      → Failed agent request x
  length_unwritten :
      (e : String)
      → agent.connect_error ≡ none
      → IsU32 (length request)
      → agent.write_error (u32_to_be_bytes (length request)) ≡ some e
      → x ≡ signer_failed (concat "ssh-agent write: " e)
      → Failed agent request x
  unwritten :
      (e : String)
      → agent.connect_error ≡ none
      → IsU32 (length request)
      → agent.write_error (u32_to_be_bytes (length request)) ≡ none
      → agent.write_error (framed request) ≡ some e
      → x ≡ signer_failed (concat "ssh-agent write: " e)
      → Failed agent request x
  headless :
      IsSent agent request
      → length (agent.reply (framed request)) < 4
      → x ≡ signer_failed (concat "ssh-agent read: " (agent.read_error (framed request)))
      → Failed agent request x
  bad_length :
      (n : ℕ) (rest : Bytes)
      → IsSent agent request
      → IsU32 n
      → agent.reply (framed request) ≡ u32_to_be_bytes n ++ rest
      → (n ≡ 0) ⊎ (max_agent_msg < n)
      → x ≡ signer_failed "ssh-agent: bad message length"
      → Failed agent request x
  cut_off :
      (n : ℕ) (rest : Bytes)
      → IsSent agent request
      → 0 < n
      → n ≤ max_agent_msg
      → agent.reply (framed request) ≡ u32_to_be_bytes n ++ rest
      → length rest < n
      → x ≡ signer_failed (concat "ssh-agent read: " (agent.read_error (framed request)))
      → Failed agent request x

abbrev opened : Agent → UnixStream
opened agent = record { agent = agent; sent = []; taken = 0 }

abbrev asked : Agent → Bytes → UnixStream
asked agent request = record (opened agent) { sent = framed request }

send_lem :
    (agent : Agent) (request : Bytes)
    → IsSent agent request
    → send (opened agent) request ≡ ok (asked agent request)
unfolding send write_all
send_lem agent request s = ground (arith, s.fits, s.length_written, s.written)

recv_headless :
    (agent : Agent) (request : Bytes)
    → length (agent.reply (framed request)) < 4
    → recv (asked agent request)
      ≡ err (signer_failed (concat "ssh-agent read: " (agent.read_error (framed request))))
unfolding recv read_exact
recv_headless agent request short = ground (arith, short)

module _ (agent : Agent) (request : Bytes) (n : ℕ) (rest : Bytes)
    (e : agent.reply (framed request) ≡ u32_to_be_bytes n ++ rest) where
  recv_bad_length :
      IsU32 n
      → (n ≡ 0) ⊎ (max_agent_msg < n)
      → recv (asked agent request) ≡ err (signer_failed "ssh-agent: bad message length")
  unfolding recv read_exact
  recv_bad_length small bad =
      let four = length-u32_to_be_bytes n in
      ground (
        arith,
        e,
        bad,
        length-append (u32_to_be_bytes n) rest,
        four,
        take-append 4 (u32_to_be_bytes n) rest four,
        u32_from_be_bytes-to_be_bytes n small,
      )

  recv_cut_off :
      0 < n
      → n ≤ max_agent_msg
      → length rest < n
      → recv (asked agent request)
        ≡ err (signer_failed (concat "ssh-agent read: " (agent.read_error (framed request))))
  unfolding recv read_exact
  recv_cut_off some_bytes fits short =
      let four = length-u32_to_be_bytes n in
      ground (
        arith,
        e,
        length-append (u32_to_be_bytes n) rest,
        four,
        take-append 4 (u32_to_be_bytes n) rest four,
        drop-append 4 (u32_to_be_bytes n) rest four,
        u32_from_be_bytes-to_be_bytes n (omega (arith, fits)),
      )

-- The three calls of an exchange.
abbrev exchange : Agent → Bytes → Result (Bytes × UnixStream)
exchange agent request = do
  stream ← connect_stream agent
  stream' ← send stream request
  recv stream'

exchange_fails :
    (agent : Agent) (request : Bytes) (x : Error)
    → Failed agent request x
    → exchange agent request ≡ err x
unfolding connect_stream
exchange_fails agent request x why = elim why [
  | unconnected e refused error ↦ ground (arith, refused, error)
  | oversized up long error ↦ unfold send in ground (arith, up, long, error)
  | length_unwritten e up fits lost error ↦
      unfold send in unfold write_all in ground (arith, up, fits, lost, error)
  | unwritten e up fits begun lost error ↦
      unfold send in unfold write_all in ground (arith, up, fits, begun, lost, error)
  | headless s short error ↦
      ground (arith, s.connects, send_lem agent request s, recv_headless agent request short, error)
  | bad_length n rest s small e bad error ↦ ground (
    arith,
    s.connects,
    send_lem agent request s,
    recv_bad_length agent request n rest e small bad,
    error,
  )
  | cut_off n rest s some_bytes fits e short error ↦ ground (
    arith,
    s.connects,
    send_lem agent request s,
    recv_cut_off agent request n rest e some_bytes fits short,
    error,
  )
]

after_exchange :
    {A : Type 0} (agent : Agent) (request : Bytes) (f : Bytes × UnixStream → Result A) (x : Error)
    → exchange agent request ≡ err x
    → (do
      stream ← connect_stream agent
      stream' ← send stream request
      answer ← recv stream'
      f answer)
      ≡ err x
after_exchange agent request f x failed = ground (arith, failed)

module _ (agents : String → Agent) where
  -- Where the socket fails, `connect` and `sign` end with the error for the first failure: no
  -- connection, a request whose length is no u32, a write that fails, an answer that ends before its
  -- length or its bytes are complete, or a length that is zero or above the largest; each about its own
  -- request.
  pub socket_failures :
      (sock : String) (want : Option Bytes) (s : SshAgentSigner) (message : Bytes) (x y : Error)
      → Failed (agents sock) (request_identities ∷ []) x
      → Failed (agents s.sock) (sign_payload s.key_blob message) y
      → (connect agents sock want ≡ err x) × (sign agents s message ≡ err y)
  unfolding connect sign
  socket_failures sock want s message x y why why' = (
    after_exchange (agents sock) (request_identities ∷ []) _ x
        (exchange_fails (agents sock) (request_identities ∷ []) x why),
    after_exchange (agents s.sock) (sign_payload s.key_blob message) _ y
        (exchange_fails (agents s.sock) (sign_payload s.key_blob message) y why'),
  )
