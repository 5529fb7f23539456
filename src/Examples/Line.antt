-- ===== src/Examples/Line.antt =====
-- Both ends of a connection of the echo protocol: `connect` at the one, and at the other what the
-- router there does with it.
use iroh_hyde_auth.Common.{◌≤◌, ◌≡◌, refl, ap, ◌∙◌, Bool, true, String, Bytes, length}
use iroh_hyde_auth.Error.{StdResult, ok, err}
use iroh_hyde_auth.Net.{EndpointId, EndpointAddr, World, accept_dial, accept_connection}
use iroh_hyde_auth.Net.Healthy.{IsHealthy}
use iroh_hyde_auth.Wire.Frames.{wrote, took, ended}
use iroh_hyde_auth.Session.{End, opening}
use iroh_hyde_auth.Examples.Echo.{Crates, AreDocumented, connect, accept}
use iroh_hyde_auth.Examples.Echo.Calls.{accept_echoes, connect_answered, connect_unanswered}

-- The two ends before anything happens on them.
pub record Line : Type 0 where
  pub client : End
  pub server : End

pub record IsSound (line : Line) : Type 0 where
  pub healthy : IsHealthy line.client.network
  pub healthy' : IsHealthy line.server.network

module _ (line : Line) (my_id : EndpointId) where
  -- The server's end, once these bytes have come and the client has finished its stream; `connect`
  -- reads nothing before it does.
  abbrev pub hearing_all : Bytes → World
  hearing_all bytes =
      opening line.server
        (record line.server.network { id = my_id; stream = λ sent. bytes; ended = λ sent. true })

  abbrev pub calling : (World → World) → EndpointAddr → World
  calling serve addr = opening line.client (record line.client.network {
    id = addr.id;
    stream = λ sent. (serve (hearing_all sent)).sent;
    ended = λ sent. (serve (hearing_all sent)).finished;
  })

end-IsHealthy :
    (end : End) {id : EndpointId} {stream : Bytes → Bytes} {over : Bytes → Bool}
    → IsHealthy end.network
    → IsHealthy (record end.network { id = id; stream = stream; ended = over })
end-IsHealthy end h = record {
  connects = h.connects;
  opens = h.opens;
  writes = h.writes;
  finishes = h.finishes;
}

module _ (crates : Crates) (documented : AreDocumented crates) (line : Line) (my_id : EndpointId)
    (serve : World → World) (addr : EndpointAddr) (message : Bytes) where
  -- The router hands the connection to the echo protocol.
  abbrev pub HandsOn : Type 0
  HandsOn = (w : World) → w.remote.id ≡ my_id → serve w ≡ (accept crates w).1

  abbrev pub answer : StdResult Bytes String
  answer =
      (connect crates accept_dial accept_connection addr message (calling line my_id serve addr)).0

  echoed :
      IsSound line
      → HandsOn
      → let heard = hearing_all line my_id message in
        serve heard ≡ ended (wrote message (took (length message) heard))
  echoed sound hands_on =
      let heard : World = hearing_all line my_id message in
      hands_on heard refl
      ∙ accept_echoes crates documented heard message (end-IsHealthy line.server sound.healthy')
          refl (λ sent. refl) (λ sent. refl)

  -- Then a message within the limit comes back.
  pub call_echoed : IsSound line → length message ≤ 1000 → HandsOn → answer ≡ ok message
  call_echoed sound fits hands_on =
      let back = echoed sound hands_on in
      connect_answered crates documented addr message message (calling line my_id serve addr)
        (end-IsHealthy line.client sound.healthy) refl refl (ap (λ w. w.sent) back)
        (ap (λ w. w.finished) back) fits

  -- Where it does nothing with the connection, the call fails.
  pub call_refused :
      ((w : World) → w.remote.id ≡ my_id → serve w ≡ w)
      → (e : String) × ((connect crates accept_dial accept_connection addr message
            (calling line my_id serve addr)).0
          ≡ err e)
  call_refused idle =
      connect_unanswered crates documented addr message (calling line my_id serve addr)
        λ sent. ap (λ w. w.finished) (idle (hearing_all line my_id sent) refl)
