-- ===== src/Incoming/Hook.antt =====
-- `accept` of incoming.rs: what is recorded, and what the initiator is told.
use iroh_hyde_auth.Common.{
  ℕ, ◌≡◌, refl, ◌⊎◌, inl, inr, List, Option, none, some, arith, codes, insert, Bytes, nat_eq,
  list_eq,
}
use iroh_hyde_auth.Error.{StdResult, ok, err, Error}
use iroh_hyde_auth.Net.{EndpointId, World}
use iroh_hyde_auth.Net.Keeps.{Keeps, close_call, keeps_rules}
use iroh_hyde_auth.Wire.{Codecs, close_accepted, close_denied}
use iroh_hyde_auth.Wire.Untouched.{write_msg-Keeps, read_msg-Keeps}
use iroh_hyde_auth.Util.{unix_secs}
use iroh_hyde_auth.Verifier.{InstitutionId}
use iroh_hyde_auth.Incoming.{AuthProtocol, run_handshake, accept}
use iroh_hyde_auth.Incoming.Soundness.{Accepted, run_handshake-Accepted}

unix_secs-Keeps : {E : Type 0} → Keeps close_call (unix_secs {E = E})
unfolding unix_secs
unix_secs-Keeps = record { at = λ w. refl }

run_handshake-Keeps :
    (codecs : Codecs) (p : AuthProtocol) → Keeps close_call (run_handshake codecs p)
unfolding run_handshake
run_handshake-Keeps codecs p =
    search (keeps_rules, write_msg-Keeps, read_msg-Keeps, unix_secs-Keeps) depth 14

module _ (codecs : Codecs) (p : AuthProtocol) (w : World) (allowed : List EndpointId) where
  -- What `accept` leaves behind: the set, and the connection.
  abbrev Left : List EndpointId → Option (ℕ × Bytes) → Type 0
  Left set call =
      ((accept codecs p w allowed).0 ≡ set) × ((accept codecs p w allowed).1.closed ≡ call)

  abbrev pub Verdict : Type 0
  Verdict =
      ((institution : InstitutionId) × (w' : World) × (run_handshake codecs p w
          ≡ (ok institution, w'))
        × Accepted codecs p institution w w'
        × Left (insert allowed w.remote.id) (some (close_accepted, codes "accepted")))
      ⊎ ((e : Error) × ((run_handshake codecs p w).0 ≡ err e)
          × Left allowed (some (close_denied, codes "denied")))

  settled :
      (r : StdResult InstitutionId Error × World)
      → run_handshake codecs p w ≡ r
      → w.closed ≡ none
      → Verdict
  unfolding accept
  settled (ok institution, w') e open_now =
      let accepted = run_handshake-Accepted codecs p w e in
      inl (
        institution,
        w',
        e,
        accepted,
        (
          ground (arith, e, accepted.same_remote),
          ground (arith, e, (run_handshake-Keeps codecs p).at w),
        ),
      )
  settled (err x, w') e open_now = inr (
    x,
    ground (arith, e),
    (ground (arith, e), ground (arith, e, (run_handshake-Keeps codecs p).at w)),
  )

  -- On a connection that this side has not closed, `accept` either has a complete exchange with
  -- every check passed, records the connection's own remote id and closes with 1 `accepted`, or the
  -- handshake gave an error, the set is as it was and the connection is closed with 403 `denied`.
  pub accept_verdict : w.closed ≡ none → Verdict
  accept_verdict open_now = settled (run_handshake codecs p w) refl open_now
