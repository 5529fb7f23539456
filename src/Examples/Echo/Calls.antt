-- ===== src/Examples/Echo/Calls.antt =====
-- What `connect` and `accept` of the echo protocol do, by what they meet.
use iroh_hyde_auth.Common.{◌≤◌, ◌≡◌, refl, arith, true, false, String, [], ◌++◌, Bytes, length}
use iroh_hyde_auth.Error.{StdResult, ok, err}
use iroh_hyde_auth.Net.{
  EndpointAddr, AfterHandshakeOutcome, accept_connection, BeforeConnectOutcome, accept_dial,
  reject_dial, World, open_stream, write_all, finish, arrived, dialled,
}
use iroh_hyde_auth.Net.Healthy.{IsHealthy}
use iroh_hyde_auth.Net.Inversion.{bind_ok}
use iroh_hyde_auth.Wire.Frames.{wrote, took, ended, write_all_lem, write_all_done}
use iroh_hyde_auth.Examples.Echo.{Crates, AreDocumented, connect, accept}

-- What a hook does not accept, it rejects.
pub not_accepted : (h : BeforeConnectOutcome) → (h ≡ accept_dial → ⊥) → h ≡ reject_dial
not_accepted accept_dial never = absurd (never refl)
not_accepted reject_dial never = refl

fails :
    {A : Type 0} (r : StdResult A String × World)
    → ((a : A) (w' : World) → r ≡ (ok a, w') → ⊥)
    → (e : String) × (r.0 ≡ err e)
fails (ok a, w') never = absurd (never a w' refl)
fails (err e, w') never = (e, refl)

-- The peer's stream stays open, whatever this side writes.
abbrev pub IsOpen : World → Type 0
IsOpen w = (sent : Bytes) → w.remote.ended sent ≡ false

open_stream-IsOpen : (w : World) {w' : World} → IsOpen w → open_stream w ≡ (ok tt, w') → IsOpen w'
open_stream-IsOpen w {w' = w'} h e = let same : w' ≡ w = ground (arith, e) in rw same h

write_all-IsOpen :
    (message : Bytes) (w : World) {w' : World}
    → IsOpen w
    → write_all message w ≡ (ok tt, w')
    → IsOpen w'
write_all-IsOpen message w h e = rw (write_all_done message w e) h

finish-IsOpen : (w : World) {w' : World} → IsOpen w → finish w ≡ (ok tt, w') → IsOpen w'
finish-IsOpen w {w' = w'} h e = let same : w' ≡ ended w = ground (arith, e) in rw same h

module _ (crates : Crates) (documented : AreDocumented crates) where
  -- Where the peer finishes on just this message, all of it goes back, and the stream is finished.
  pub accept_echoes :
      (w : World) (message : Bytes)
      → IsHealthy w.remote
      → w.taken ≡ 0
      → ((sent : Bytes) → w.remote.stream sent ≡ message)
      → ((sent : Bytes) → w.remote.ended sent ≡ true)
      → (accept crates w).1 ≡ ended (wrote message (took (length message) w))
  unfolding accept
  accept_echoes w message h untaken stream over =
      ground (arith, h.opens, h.finishes, documented.copies w message h untaken stream over)

  -- A dial that the hook rejects ends there.
  pub connect_rejected :
      (after : AfterHandshakeOutcome) (remote : EndpointAddr) (message : Bytes) (w : World)
      → (e : String) × ((connect crates reject_dial after remote message w).0 ≡ err e)
  unfolding connect
  connect_rejected after remote message w =
      let (e, r) = documented.rejects after remote w in (e, ground (arith, r))

  -- What comes back is what the peer has written, once it finishes.
  pub connect_answered :
      (remote : EndpointAddr) (message answer : Bytes) (w : World)
      → IsHealthy w.remote
      → w.sent ≡ []
      → w.taken ≡ 0
      → w.remote.stream message ≡ answer
      → w.remote.ended message ≡ true
      → length answer ≤ 1000
      → (connect crates accept_dial accept_connection remote message w).0 ≡ ok answer
  unfolding connect
  connect_answered remote message answer w h unsent untaken stream over fits =
      let asked : World = ended (wrote message (dialled remote w)) in
      let says : w.remote.stream asked.sent ≡ answer = rw unsent stream in
      let here : arrived asked ≡ answer = rw untaken says in
      let over' : asked.remote.ended asked.sent ≡ true = rw unsent over in
      let read = documented.reads 1000 asked over' (rw here fits) in
      ground (
        arith,
        documented.connects remote w,
        h.connects,
        h.opens,
        write_all_lem message (dialled remote w) (h.writes (w.sent ++ message)),
        h.finishes,
        read,
        here,
      )

  dial-IsOpen :
      (remote : EndpointAddr) (w : World) {w' : World}
      → IsOpen w
      → crates.connect_hooked accept_dial accept_connection remote w ≡ (ok tt, w')
      → IsOpen w'
  dial-IsOpen remote w {w' = w'} h e =
      let same : w' ≡ dialled remote w = ground (arith, documented.connects remote w, e) in
      rw same h

  read_to_end-open :
      (w : World) {bytes : Bytes} {w' : World}
      → IsOpen w
      → crates.read_to_end 1000 w ≡ (ok bytes, w')
      → ⊥
  read_to_end-open w h e =
      let (x, failed) = documented.reads_not 1000 w (h w.sent) in absurd (ground (arith, failed, e))

  -- Where the peer never finishes, the call fails.
  pub connect_unanswered :
      (remote : EndpointAddr) (message : Bytes) (w : World)
      → IsOpen w
      → (e : String) × ((connect crates accept_dial accept_connection remote message w).0 ≡ err e)
  unfolding connect
  connect_unanswered remote message w open_still =
      fails (connect crates accept_dial accept_connection remote message w) λ a w' e.
        let hooked = crates.connect_hooked accept_dial accept_connection remote in
        bind_ok (crates.connect_hooked accept_dial accept_connection remote) _ w e λ x₁ w₁ e₁ f₁.
          bind_ok open_stream _ w₁ f₁ λ x₂ w₂ e₂ f₂.
            bind_ok (write_all message) _ w₂ f₂ λ x₃ w₃ e₃ f₃. bind_ok finish _ w₃ f₃ λ x₄ w₄ e₄ f₄.
              bind_ok (crates.read_to_end 1000) _ w₄ f₄ λ x₅ w₅ e₅ f₅.
                let opened = dial-IsOpen remote w open_still e₁ in
                let still = open_stream-IsOpen w₁ opened e₂ in
                let written = write_all-IsOpen message w₂ still e₃ in
                read_to_end-open w₄ (finish-IsOpen w₃ written e₄) e₅
