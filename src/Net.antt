-- ===== src/Net.antt =====
-- The surroundings of one handshake: the connection with its one bidirectional stream, the clock
-- and the random numbers, as a state that the asynchronous code threads through. What the peer and
-- the network do is a function of the bytes that this side has written so far, so every peer is
-- covered, the hostile ones too.
pub mod Inversion
pub mod Keeps
pub mod Healthy
use iroh_hyde_auth.Common.{
  ℕ, suc, ◌+◌, Bool, true, String, Option, none, some, List, ◌++◌, Bytes, length, take, drop, ltb,
  if◌then◌else◌,
}
use iroh_hyde_auth.Error.{StdResult, ok, err, map_err}

-- iroh's `ConnectionError`, by what the code looks at: the close code of an application close, a
-- number below 2 ^ 62, and the text that it displays.
pub data ConnectionError : Type 0 where
  application_closed : ℕ → String → ConnectionError
  other : String → ConnectionError

abbrev pub EndpointId : Type 0
EndpointId = Bytes

-- iroh's address of an endpoint; the code reads its id, and passes the rest on
pub record EndpointAddr : Type 0 where
  pub id : EndpointId
  pub direct : List String

-- iroh's `AfterHandshakeOutcome` and `BeforeConnectOutcome`
pub data AfterHandshakeOutcome : Type 0 where
  accept_connection : AfterHandshakeOutcome
  reject_connection : ℕ → Bytes → AfterHandshakeOutcome

pub data BeforeConnectOutcome : Type 0 where
  accept_dial reject_dial : BeforeConnectOutcome

-- The peer, with the network between. A field for a call that can fail holds the text of the error
-- that it gives, and each function is over all the bytes that this side has written.
pub record Remote : Type 0 where
  pub id : EndpointId
  pub connect_error : Option String
  pub stream_error : Option String
  pub write_error : Bytes → Option String
  pub finish_error : Option String
  pub stream : Bytes → Bytes
  -- whether the peer has finished its stream behind that
  pub ended : Bytes → Bool
  pub read_error : Bytes → String
  pub reason : Bytes → ConnectionError

-- `SystemTime`, in whole nanoseconds after or before the Unix epoch
pub data SystemTime : Type 0 where
  after_epoch : ℕ → SystemTime
  before_epoch : ℕ → SystemTime

pub record World : Type 0 where
  pub remote : Remote
  pub sent : Bytes
  -- this side has finished its stream
  pub finished : Bool
  pub taken : ℕ
  pub rng : ℕ → Bytes
  pub draws : ℕ
  pub clock : ℕ → SystemTime
  pub ticks : ℕ
  pub join_error : Option String
  pub closed : Option (ℕ × Bytes)

-- An asynchronous call that may fail with an `E`.
abbrev pub Io {ℓ} : Type ℓ → Type 0 → Type ℓ
Io A E = World → StdResult A E × World

abbrev pub continue {ℓ κ} :
    {A : Type ℓ} {B : Type κ} {E : Type 0} → StdResult A E → (A → Io B E) → Io B E
continue (ok a) f w = f a w
continue (err e) f w = (err e, w)

infixl 5 ◌>>=◌ ◌>>◌
abbrev pub ◌>>=◌ {ℓ κ} : {A : Type ℓ} {B : Type κ} {E : Type 0} → Io A E → (A → Io B E) → Io B E
◌>>=◌ m f w = let (r, w') = m w in continue r f w'

abbrev pub ◌>>◌ {ℓ κ} : {A : Type ℓ} {B : Type κ} {E : Type 0} → Io A E → Io B E → Io B E
m >> n = m >>= λ _. n

abbrev pub lift {ℓ} : {A : Type ℓ} {E : Type 0} → StdResult A E → Io A E
lift r w = (r, w)

abbrev pub pure {ℓ} : {A : Type ℓ} {E : Type 0} → A → Io A E
pure a w = (ok a, w)

abbrev pub fail {ℓ} : {A : Type ℓ} {E : Type 0} → E → Io A E
fail e w = (err e, w)

abbrev pub await_map_err {ℓ} : {A : Type ℓ} {E F : Type 0} → (E → F) → Io A E → Io A F
await_map_err f m w = let (r, w') = m w in (map_err f r, w')

abbrev pub fail_if : {E : Type 0} → Option E → Io (Unit {0}) E
fail_if none w = (ok tt, w)
fail_if (some e) w = (err e, w)

-- The surroundings of a connection to `addr`: iroh dials an endpoint by its id, and the id that the
-- connection has authenticated is that one.
abbrev pub dialled : EndpointAddr → World → World
dialled addr w = record w { remote = record w.remote { id = addr.id } }

-- `Endpoint::connect`
abbrev pub connect : EndpointAddr → Io (Unit {0}) String
connect addr w = fail_if w.remote.connect_error (dialled addr w)

-- `accept_bi`, `open_bi`
abbrev pub open_stream : Io (Unit {0}) String
open_stream w = fail_if w.remote.stream_error w

-- `SendStream::write_all`
unfoldable pub write_all : Bytes → Io (Unit {0}) String
write_all bytes w = elim (w.remote.write_error (w.sent ++ bytes)) [
  | none ↦ (ok tt, record w { sent = w.sent ++ bytes })
  | some e ↦ (err e, w)
]

-- `SendStream::finish`
abbrev pub finish : Io (Unit {0}) String
finish w = elim w.remote.finish_error [
  | none ↦ (ok tt, record w { finished = true })
  | some e ↦ (err e, w)
]

-- What has arrived and is not yet read.
abbrev pub arrived : World → Bytes
arrived w = drop w.taken (w.remote.stream w.sent)

-- `RecvStream::read_exact`, into a buffer of `n` bytes; a stream that ends early is an error
unfoldable pub read_exact : ℕ → Io Bytes String
read_exact n w =
    if ltb (length (arrived w)) n
    then (err (w.remote.read_error w.sent), w)
    else (ok (take n (arrived w)), record w { taken = w.taken + n })

-- `rand::random`
abbrev pub random : {E : Type 0} → Io Bytes E
random w = (ok (w.rng w.draws), record w { draws = suc w.draws })

-- `Connection::close`; the first call decides
abbrev pub close : {E : Type 0} → ℕ → Bytes → Io (Unit {0}) E
close code text w =
    (ok tt, elim w.closed [ none ↦ record w { closed = some (code, text) } | some c ↦ w ])

-- `Connection::closed`: why the connection ended
abbrev pub closed_reason : {E : Type 0} → Io ConnectionError E
closed_reason w = (ok (w.remote.reason w.sent), w)
