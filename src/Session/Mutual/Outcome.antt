-- ===== src/Session/Mutual/Outcome.antt =====
-- What both ends of a mutual handshake end with, by the two judgements.
use iroh_hyde_auth.Common.{
  ◌≡◌, ◌≢◌, ◌↔◌, refl, nat_eq, [], Bytes, arith, contains, contains-insert_self, list_eq,
  list_beq_iff,
}
use iroh_hyde_auth.Error.{ok, err, Result}
use iroh_hyde_auth.Net.{accept_connection}
use iroh_hyde_auth.Wire.{mutual_alpn}
use iroh_hyde_auth.Verifier.{InstitutionId}
use iroh_hyde_auth.Mutual.{Shared, after_handshake}
use iroh_hyde_auth.Session.Mutual.{Link, told, recorded}

-- Both judgements are institutions.
abbrev pub BothOk : Result InstitutionId → Result InstitutionId → Type 0
BothOk j j' =
    ((institution : InstitutionId) × (j ≡ ok institution))
    × ((institution : InstitutionId) × (j' ≡ ok institution))

module _ (l : Link) where
  pub told_ok : (j j' : Result InstitutionId) → (told l j j' ≡ ok tt) ↔ BothOk j j'
  told_ok (ok x) (ok y) = (λ h. ((x, refl), (y, refl)), λ b. refl)
  told_ok (ok x) (err e) = (λ h. absurd (ground (arith, h)), λ b. absurd (ground (arith, b)))
  told_ok (err e) j' = (λ h. absurd (ground (arith, h)), λ b. absurd (ground (arith, b)))

  -- Whom the acceptor's hook lets in, by what its set is after a handshake from an empty one.
  pub let_in :
      l.allowed ≡ []
      → (j j' : Result InstitutionId) (app : Bytes) → app ≢ mutual_alpn
      → (left : Shared) → left.allowed ≡ recorded l j j'
      → (after_handshake left app l.my_id ≡ accept_connection) ↔ BothOk j j'
  unfolding after_handshake
  let_in empty (ok x) (ok y) app other left e =
      (λ h. ((x, refl), (y, refl)), λ b. ground (arith, e, contains-insert_self l.allowed l.my_id))
  let_in empty (ok x) (err z) app other left e = (
    λ h. absurd (unfold contains in ground (arith, h, e, empty, list_beq_iff app mutual_alpn)),
    λ b. absurd (ground (arith, b)),
  )
  let_in empty (err z) j' app other left e = (
    λ h. absurd (unfold contains in ground (arith, h, e, empty, list_beq_iff app mutual_alpn)),
    λ b. absurd (ground (arith, b)),
  )
