-- ===== src/Tests/InitiatorRuns.antt =====
-- The initiator of outgoing.rs.
use iroh_hyde_auth.Outgoing.Loop.Ends.{Ends, Ended}
use iroh_hyde_auth.Outgoing.Loop.Lasting.{authenticated_once}
use iroh_hyde_auth.Common.{
  ℕ, ◌+◌, ◌%◌, ◌^◌, ◌≡◌, ◌≢◌, ◌↔◌, refl, ap, true, false, ◌&&◌, some, String, List, [], ◌∷◌, arith,
  codes, get, put, remove, contains, insert, u64_to_be_bytes, nat_eq, list_eq, list_beq,
  list_beq_iff, if◌then◌else◌,
}
use iroh_hyde_auth.Error.{ok}
use iroh_hyde_auth.Net.{application_closed, World, accept_dial}
use iroh_hyde_auth.Wire.{transcript, alpn, close_accepted}
use iroh_hyde_auth.Wire.Frames.{ended, frame, wrote}
use iroh_hyde_auth.Util.{whole_secs}
use iroh_hyde_auth.Verifier.Roster.{is_some}
use iroh_hyde_auth.Signer.{InstitutionalSigner, from_parts, sign, as_signer}
use iroh_hyde_auth.Outgoing.{
  outgoing, handle_request, handle_completion, send_all, authenticate, before_connect,
}
use iroh_hyde_auth.Outgoing.Handshake.{handshake, verdict}
use iroh_hyde_auth.Outgoing.Exchange.{Proved, handshake-Proved, verdict_ok}
use iroh_hyde_auth.Outgoing.Completeness.{asked, handshake_complete}
use iroh_hyde_auth.Outgoing.Loop.{
  Event, LoopState, request, joined, hooks_gone, start, run, step, take_task,
}
use iroh_hyde_auth.Outgoing.Loop.Flight.{flights, single_flight}
use iroh_hyde_auth.Outgoing.Loop.Replies.{outstanding, no_lost_request}
use iroh_hyde_auth.Outgoing.Loop.Trust.{task_after, dial_gate}
use iroh_hyde_auth.Tests.Fixtures.{
  nonce, client_id, server_id, server_addr, site_key, site_signature, hyde, codecs, hello_bytes,
  challenge_bytes, auth_bytes, dialling, peer-IsHealthy,
}

abbrev signer : InstitutionalSigner
signer = as_signer hyde (from_parts hyde 0 site_key)

verdict_ok_example : (verdict (application_closed (2 ^ 32 + 1) "") ≡ ok tt) ↔ (
    (code : ℕ) × (text : String) × (application_closed (2 ^ 32 + 1) ""
      ≡ application_closed code text)
    × (code % 2 ^ 32 ≡ close_accepted))
verdict_ok_example = verdict_ok (application_closed (2 ^ 32 + 1) "")

abbrev told : World
told = ended (wrote (frame auth_bytes) (asked server_addr hello_bytes challenge_bytes dialling))

reaches_verdict :
    handshake codecs client_id server_addr signer dialling
    ≡ (verdict (application_closed 1 "closed by peer: accepted (code 1)"), told)
unfolding frame whole_secs from_parts transcript u64_to_be_bytes sign list_beq
reaches_verdict =
    handshake_complete codecs client_id server_addr signer dialling
      (record { version = 0; nonce = nonce; server_unix_secs = 1000 }) site_signature hello_bytes
      challenge_bytes auth_bytes [] (peer-IsHealthy server_id (frame challenge_bytes)) refl
      (record { encodes = refl; decodes = refl; fits = omega arith })
      (record { encodes = refl; decodes = refl; fits = omega arith })
      (record { encodes = refl; decodes = refl; fits = omega arith }) refl refl refl

succeeds : handshake codecs client_id server_addr signer dialling ≡ (ok tt, told)
unfolding verdict
succeeds = reaches_verdict

handshake-Proved_example : Proved codecs client_id server_addr signer dialling told
handshake-Proved_example = handshake-Proved codecs client_id server_addr signer dialling succeeds

-- Two requests for one remote, a third after the handshake has ended, and then the hooks go.
abbrev events : List Event
events =
    request server_addr 0
    ∷ request server_addr 1
    ∷ joined 0 dialling
    ∷ request server_addr 2
    ∷ hooks_gone
    ∷ request server_addr 3
    ∷ []

single_flight_example :
    let t = (run codecs client_id (start signer) events).task in
    (flights server_id t.tasks ≡ (if is_some (get t.pending_remotes server_id) then 1 else 0))
    × ((contains t.allowed_remotes server_id && is_some (get t.pending_remotes server_id)) ≡ false)
single_flight_example = single_flight codecs client_id signer events server_id

no_lost_request_example : outstanding 1 (run codecs client_id (start signer) events).task ≡ 1
no_lost_request_example = no_lost_request codecs client_id signer events 1

answered_ok :
    get (task_after codecs client_id signer (λ tx. server_id) events).replies 1 ≡ some (ok tt)
unfolding get run step handle_request contains take_task outgoing put list_beq handle_completion
    insert remove send_all
answered_ok = rw (ap (λ r. r.0) succeeds) refl

other_alpn : codes "echo/0" ≢ alpn
unfolding list_beq
other_alpn e = absurd (ground (arith, list_beq_iff (codes "echo/0") alpn, e))

lets_out :
    before_connect (codes "echo/0") (
      authenticate true
        (get (task_after codecs client_id signer (λ tx. server_id) events).replies 1))
    ≡ accept_dial
unfolding before_connect authenticate list_beq
lets_out = rw answered_ok refl

dial_gate_example : Ended codecs client_id signer server_id (ok tt) (start signer) events
dial_gate_example =
    dial_gate codecs client_id signer (λ tx. server_id) events 1 (codes "echo/0") true
      (refl, (refl, (refl, (refl, tt)))) other_alpn lets_out

-- A request, and the loop that waits for its handshake.
abbrev waiting : LoopState
waiting = run codecs client_id (start signer) (request server_addr 0 ∷ [])

dial_succeeds : Ends codecs client_id signer waiting server_id (ok tt) (joined 0 dialling)
unfolding run step handle_request contains take_task outgoing put get
dial_succeeds = (server_addr, [], refl, refl, refl, ap (λ r. r.0) succeeds)

authenticated_once_example :
    let left = run codecs client_id waiting (joined 0 dialling ∷ request server_addr 1 ∷ []) in
    let after = (step codecs client_id left (request server_addr 5)).task in
    (after.replies ≡ (5, ok tt) ∷ left.task.replies)
    × (before_connect (codes "echo/0") (authenticate true (get after.replies 5)) ≡ accept_dial)
    × (after.tasks ≡ left.task.tasks)
    × (after.pending_remotes ≡ left.task.pending_remotes)
unfolding run step handle_request contains take_task outgoing put get handle_completion
authenticated_once_example =
    authenticated_once codecs client_id waiting (joined 0 dialling) (request server_addr 1 ∷ [])
      server_addr 5 (codes "echo/0") dial_succeeds refl
