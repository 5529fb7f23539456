-- ===== src/Examples/MutualEcho/Outsider.antt =====
-- A node of examples/mutual-echo.rs that trusts no one.
use iroh_hyde_auth.Common.{
  ◌≡◌, sym, ap, ◌∙◌, arith, true, some, String, Bytes, get, list_eq, nat_eq,
}
use iroh_hyde_auth.Error.{ok, err}
use iroh_hyde_auth.Hyde.{Hyde}
use iroh_hyde_auth.Net.{EndpointAddr, accept_dial, World}
use iroh_hyde_auth.Wire.{MutualCodecs}
use iroh_hyde_auth.Verifier.{InstitutionId, verify, new}
use iroh_hyde_auth.Verifier.Roster
use iroh_hyde_auth.Outgoing.{Sender}
use iroh_hyde_auth.Mutual.{default_max_skew_secs}
use iroh_hyde_auth.Mutual.Authenticator.{mutual_auth, authenticate, before_connect}
use iroh_hyde_auth.Mutual.Initiator.{handshake}
use iroh_hyde_auth.Mutual.Dialer.{mutual_handshake-Proved}
use iroh_hyde_auth.Session.Mutual.FirstDial.{dialled_once_lem, dial_result, let_out}
use iroh_hyde_auth.Session.MutualInstitution as Institution
use iroh_hyde_auth.Session.MutualInstitution.{signer_of, verifier_of}
use iroh_hyde_auth.Examples.Echo
use iroh_hyde_auth.Examples.Echo.{Crates, AreDocumented}
use iroh_hyde_auth.Examples.Line.{Line}
use iroh_hyde_auth.Examples.MutualEcho.{Node, node_of, asked_hook, call, after_dial}
use iroh_hyde_auth.Examples.MutualEcho.Serving.{other_alpn, call_rejected}
use iroh_hyde_auth.Examples.MutualEcho.Admission.{new_node}

verify_new :
    (hyde : Hyde) (roster : Roster.Roster) (vk message signature : Bytes)
    (institution : InstitutionId)
    → roster ≡ Roster.new
    → verify hyde (new hyde roster) vk message signature ≡ ok institution
    → ⊥
unfolding verify new Roster.new Roster.contains get
verify_new hyde roster vk message signature institution alone h = absurd (ground (arith, h, alone))

module _ (hyde : Hyde) (crates : Crates) (codecs : MutualCodecs) (n : Institution.Node hyde)
    (alone : n.roster ≡ Roster.new) (addr : EndpointAddr) (tx : Sender) (w : World) where
  -- No handshake of its own succeeds, whatever it meets.
  never_proved :
      {w' : World}
      → handshake codecs n.addr.id addr
          (signer_of hyde n)
          (verifier_of hyde n)
          (some default_max_skew_secs)
          w
        ≡ (ok tt, w')
      → ⊥
  never_proved e =
      let proved =
        mutual_handshake-Proved codecs n.addr.id addr (signer_of hyde n) (verifier_of hyde n)
          (some default_max_skew_secs) w e in
      verify_new hyde n.roster proved.challenge.verifying_key _ proved.challenge.signature
        proved.institution alone proved.verified

  never_ok :
      dial_result codecs n.addr.id
          (mutual_auth (signer_of hyde n) (verifier_of hyde n)).0
          (signer_of hyde n)
          (verifier_of hyde n)
          addr
          tx
          w
        ≡ ok tt
      → ⊥
  never_ok e = never_proved (
      ap
        (λ r. (
          r,
          (handshake codecs n.addr.id addr (signer_of hyde n) (verifier_of hyde n)
              (some default_max_skew_secs) w).1,
        ))
        e)

  never_out :
      asked_hook crates codecs (after_dial crates codecs (new_node hyde crates n) addr tx w) tx
        ≡ accept_dial
      → ⊥
  unfolding node_of
  never_out e =
      let p = (mutual_auth (signer_of hyde n) (verifier_of hyde n)).0 in
      let r = dial_result codecs n.addr.id p (signer_of hyde n) (verifier_of hyde n) addr tx w in
      let replied =
        (dialled_once_lem codecs n.addr.id p (signer_of hyde n) (verifier_of hyde n) addr tx w).0 in
      never_ok (
        (let_out r Echo.alpn other_alpn).0
          (sym (ap (λ reply. before_connect Echo.alpn (authenticate true reply)) replied) ∙ e))

  -- Its calls fail.
  pub alone_refused :
      AreDocumented crates
      → (met : Node) (line : Line) (message : Bytes)
      → (e : String) × (call crates codecs
            (after_dial crates codecs (new_node hyde crates n) addr tx w)
            tx
            met
            addr
            line
            message
          ≡ err e)
  alone_refused documented met line message =
      call_rejected crates documented codecs
        (after_dial crates codecs (new_node hyde crates n) addr tx w) met tx addr line message
        never_out
