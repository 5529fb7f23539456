-- ===== src/Tests/MutualRuns.antt =====
-- Both sides of the mutual handshake of mutual.rs.
use iroh_hyde_auth.Mutual.Loop.Met.{Met}
use iroh_hyde_auth.Common.{
  suc, ◌+◌, ◌≡◌, refl, ap, some, [], ◌∷◌, ◌++◌, arith, codes, u64_to_be_bytes, nat_eq, list_eq,
  list_beq, length,
}
use iroh_hyde_auth.Error.{ok, err, denied, concat}
use iroh_hyde_auth.Net.{World, application_closed}
use iroh_hyde_auth.Wire.{mutual_transcript, close_denied}
use iroh_hyde_auth.Wire.Frames.{ended, frame, wrote, took}
use iroh_hyde_auth.Util.{whole_secs, is_skewed}
use iroh_hyde_auth.Verifier
use iroh_hyde_auth.Verifier.{InstitutionVerifier, untrusted_key}
use iroh_hyde_auth.Outgoing.Handshake.{verdict}
use iroh_hyde_auth.Mutual.{accept_handshake}
use iroh_hyde_auth.Mutual.Initiator.{handshake}
use iroh_hyde_auth.Mutual.Acceptor.{Accepted, accept_handshake-Accepted}
use iroh_hyde_auth.Mutual.Refusal.{untrusted, initiator_refuses}
use iroh_hyde_auth.Mutual.Dialer.{Proved, mutual_handshake-Proved}
use iroh_hyde_auth.Mutual.Completeness.{accept_handshake_complete, mutual_handshake_complete}
use iroh_hyde_auth.Mutual.Exchange.{challenged, timed, checked}
use iroh_hyde_auth.Tests.Fixtures.{client_id, server_id, server_addr, peer-IsHealthy}
use iroh_hyde_auth.Outgoing
use iroh_hyde_auth.Outgoing.Loop.Replies.{answered}
use iroh_hyde_auth.Net.{accept_connection}
use iroh_hyde_auth.Wire.{mutual_alpn}
use iroh_hyde_auth.Mutual.{after_handshake, accept}
use iroh_hyde_auth.Mutual.Authenticator.{spawn, mutual_auth, handle_request, handle_completion}
use iroh_hyde_auth.Mutual.Loop.{
  Event, request, joined, incoming_auth, hooks_gone, LoopState, run, step,
}
use iroh_hyde_auth.Mutual.Loop.View.{view, view-handle}
use iroh_hyde_auth.Mutual.Loop.Drain.{ending, spawned, mutual_all_answered}
use iroh_hyde_auth.Mutual.Loop.Lasting.{mutual_gate_complete}
use iroh_hyde_auth.Mutual.Loop.Gate.{endpoint_after, mutual_gate}
use iroh_hyde_auth.Common.{List, true, ◌≢◌, list_beq_iff, contains, put, insert, get}
use iroh_hyde_auth.Tests.MutualFixtures.{
  codecs, signer_of, trusting, distrusting, protocol, shared, acceptor_message, initiator_message,
  hello_bytes, challenge_bytes, response_bytes, hello, challenge, response, accepting, dialling,
}

abbrev accepted : World
accepted =
    timed (some 300)
      (took (4 + length response_bytes) (challenged hello_bytes challenge_bytes accepting))

passes : accept_handshake codecs protocol shared accepting ≡ (ok client_id, accepted)
unfolding frame mutual_transcript whole_secs u64_to_be_bytes is_skewed list_beq
passes =
    accept_handshake_complete codecs protocol shared accepting server_id hello response
      (21 ∷ acceptor_message) hello_bytes challenge_bytes response_bytes (frame response_bytes) []
      "site-a" refl (peer-IsHealthy client_id (frame hello_bytes ++ frame response_bytes)) refl
      (record { encodes = refl; decodes = refl; fits = omega arith })
      (record { encodes = refl; decodes = refl; fits = omega arith })
      (record { encodes = refl; decodes = refl; fits = omega arith }) refl refl refl refl refl refl

accept_handshake-Accepted_example :
    Accepted codecs protocol shared accepting accepted × (client_id ≡ accepting.remote.id)
accept_handshake-Accepted_example =
    accept_handshake-Accepted codecs protocol shared accepting passes

abbrev made : World
made = checked server_addr (some 300) hello_bytes challenge_bytes dialling

abbrev told : World
told = ended (wrote (frame response_bytes) (record made { ticks = suc made.ticks }))

reaches_verdict :
    handshake codecs client_id server_addr (signer_of 22) trusting (some 300) dialling
    ≡ (verdict (application_closed 1 "closed by peer: accepted (code 1)"), told)
unfolding frame mutual_transcript whole_secs u64_to_be_bytes is_skewed list_beq
reaches_verdict =
    mutual_handshake_complete codecs client_id server_addr (signer_of 22) trusting (some 300)
      dialling challenge (22 ∷ initiator_message) hello_bytes challenge_bytes response_bytes []
      "site-a" (peer-IsHealthy server_id (frame challenge_bytes)) refl
      (record { encodes = refl; decodes = refl; fits = omega arith })
      (record { encodes = refl; decodes = refl; fits = omega arith })
      (record { encodes = refl; decodes = refl; fits = omega arith }) refl refl refl refl refl

succeeds :
    handshake codecs client_id server_addr (signer_of 22) trusting (some 300) dialling
    ≡ (ok tt, told)
unfolding verdict
succeeds = reaches_verdict

mutual_handshake-Proved_example :
    Proved codecs client_id server_addr (signer_of 22) trusting (some 300) dialling told
mutual_handshake-Proved_example =
    mutual_handshake-Proved codecs client_id server_addr (signer_of 22) trusting (some 300) dialling
      succeeds

initiator_refuses_example :
    let left =
      handshake codecs client_id server_addr (signer_of 22) distrusting (some 300) dialling in
    (left.0
      ≡ err (denied (concat "acceptor failed verification: " (Verifier.to_string untrusted_key))))
    × (left.1.sent ≡ frame hello_bytes)
    × (left.1.closed ≡ some (close_denied, codes "peer-untrusted"))
unfolding frame mutual_transcript u64_to_be_bytes is_skewed whole_secs
initiator_refuses_example =
    initiator_refuses codecs client_id server_addr (signer_of 22) distrusting (some 300) dialling
      challenge hello_bytes challenge_bytes []
      (denied (concat "acceptor failed verification: " (Verifier.to_string untrusted_key)))
      (codes "peer-untrusted") (peer-IsHealthy server_id (frame challenge_bytes)) refl
      (record { encodes = refl; decodes = refl; fits = omega arith })
      (record { encodes = refl; decodes = refl; fits = omega arith }) refl
      (untrusted untrusted_key refl refl refl refl refl)

-- The initiator comes in, then the same endpoint is dialled, and the acceptor of that is met.
abbrev events : List Event
events = incoming_auth accepting ∷ request server_addr 0 ∷ joined 0 dialling ∷ hooks_gone ∷ []

abbrev start : LoopState
start = record { running = true; task = spawn (mutual_auth (signer_of 21) trusting).1 server_id }

view-handle_example :
    (view (handle_request start.task server_addr 0)
      ≡ Outgoing.handle_request (view start.task) server_addr 0)
    × (view (handle_completion start.task client_id (ok tt))
        ≡ Outgoing.handle_completion (view start.task) client_id (ok tt))
view-handle_example = view-handle start.task server_addr 0 client_id (ok tt)

other_alpn : codes "echo/0" ≢ mutual_alpn
unfolding list_beq
other_alpn e = absurd (ground (arith, list_beq_iff (codes "echo/0") mutual_alpn, e))

let_in_client :
    after_handshake
      (endpoint_after codecs server_id
        (signer_of 21)
        trusting
        protocol
        (incoming_auth accepting ∷ [])).task.shared
      (codes "echo/0")
      client_id
    ≡ accept_connection
unfolding after_handshake run step spawn mutual_auth accept contains insert list_beq
let_in_client = rw passes refl

mutual_gate_example :
    Met codecs server_id
      (signer_of 21)
      trusting
      protocol
      client_id
      start
      (incoming_auth accepting ∷ [])
mutual_gate_example =
    mutual_gate codecs server_id (signer_of 21) trusting protocol (incoming_auth accepting ∷ [])
      (codes "echo/0") client_id other_alpn let_in_client

-- Requests for one remote while another comes in.
abbrev asked_twice : List Event
asked_twice = request server_addr 0 ∷ request server_addr 1 ∷ incoming_auth accepting ∷ []

mutual_all_answered_example :
    let left =
      run codecs client_id protocol
        (spawned client_id (signer_of 22) trusting)
        (asked_twice ++ ending ((0, dialling) ∷ [])) in
    answered 1 left.task.replies ≡ 1
unfolding run step spawn mutual_auth handle_request get put contains list_beq
mutual_all_answered_example =
    mutual_all_answered codecs client_id protocol (signer_of 22) trusting asked_twice
      ((0, dialling) ∷ []) 1 refl (omega arith, refl)

mutual_gate_complete_example :
    after_handshake
      (run codecs server_id protocol start (incoming_auth accepting ∷ hooks_gone ∷ [])).task.shared
      (codes "echo/0")
      client_id
    ≡ accept_connection
unfolding spawn mutual_auth
mutual_gate_complete_example =
    mutual_gate_complete codecs server_id protocol start (incoming_auth accepting) (hooks_gone ∷ [])
      client_id (codes "echo/0") (ap (λ r. r.0) passes)
