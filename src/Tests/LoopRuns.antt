-- ===== src/Tests/LoopRuns.antt =====
-- The loop of outgoing.rs: until nobody waits.
use iroh_hyde_auth.Common.{
  ◌≡◌, refl, List, [], ◌∷◌, ◌++◌, arith, get, put, contains, nat_eq, list_eq, list_beq,
}
use iroh_hyde_auth.Signer.{InstitutionalSigner, from_parts, as_signer}
use iroh_hyde_auth.Outgoing.{outgoing, handle_request}
use iroh_hyde_auth.Outgoing.Loop.{Event, request, start, run, step}
use iroh_hyde_auth.Outgoing.Loop.Replies.{answered}
use iroh_hyde_auth.Outgoing.Loop.Drain.{ending, all_answered}
use iroh_hyde_auth.Tests.Fixtures.{client_id, server_addr, site_key, hyde, codecs, dialling}

abbrev signer : InstitutionalSigner
signer = as_signer hyde (from_parts hyde 0 site_key)

-- Two requests for one remote.
abbrev asked_twice : List Event
asked_twice = request server_addr 0 ∷ request server_addr 1 ∷ []

all_answered_example :
    answered 1
      (run codecs client_id
        (start signer)
        (asked_twice ++ ending ((0, dialling) ∷ []))).task.replies
    ≡ 1
unfolding run step handle_request outgoing get put contains list_beq
all_answered_example =
    all_answered codecs client_id signer asked_twice ((0, dialling) ∷ []) 1 refl (omega arith, refl)
