-- ===== src/Net/Keeps.antt =====
-- Parts of the world that a block leaves as they are, whether it succeeds or not: one rule for each
-- way to build a block.
use iroh_hyde_auth.Common.{
  ℕ, ◌≡◌, refl, ◌∙◌, Bool, true, false, Bytes, Option, arith, if◌then◌else◌,
}
use iroh_hyde_auth.Error.{StdResult, ok, err}
use iroh_hyde_auth.Net.{
  World, EndpointAddr, connect, Io, continue, ◌>>=◌, await_map_err, lift, pure, fail, open_stream,
  finish, closed_reason, write_all, read_exact, random,
}

-- `m` leaves the part `f` of the world as it was.
pub record Keeps {ℓ κ} {X : Type ℓ} {A : Type κ} {E : Type 0} (f : World → X) (m : Io A E)
    : Type (ℓ ⊔ κ) where
  pub at : (w : World) → f (m w).1 ≡ f w

module _ {ℓ κ μ} {X : Type ℓ} {A : Type κ} {B : Type μ} {E : Type 0} {f : World → X} where
  continue-Keeps :
      (p : StdResult A E × World) (g : A → Io B E)
      → ((a : A) → Keeps f (g a))
      → f (continue p.0 g p.1).1 ≡ f p.1
  continue-Keeps (ok a, w) g k = (k a).at w
  continue-Keeps (err e, w) g k = refl

  pub Keeps-bind :
      (m : Io A E) (g : A → Io B E) → Keeps f m → ((a : A) → Keeps f (g a)) → Keeps f (m >>= g)
  Keeps-bind m g km kg = record { at = λ w. continue-Keeps (m w) g kg ∙ km.at w }

module _ {ℓ κ} {X : Type ℓ} {A : Type κ} {E F : Type 0} {f : World → X} where
  pub Keeps-await : (g : E → F) (m : Io A E) → Keeps f m → Keeps f (await_map_err g m)
  Keeps-await g m k = record { at = k.at }

module _ {ℓ κ} {X : Type ℓ} {A : Type κ} {E : Type 0} {f : World → X} where
  pub Keeps-lift : (r : StdResult A E) → Keeps f (lift r)
  Keeps-lift r = record { at = λ w. refl }

  pub Keeps-pure : (a : A) → Keeps f (pure {E = E} a)
  Keeps-pure a = record { at = λ w. refl }

  pub Keeps-fail : (e : E) → Keeps f (fail {A = A} e)
  Keeps-fail e = record { at = λ w. refl }

  pub Keeps-if : (b : Bool) (m n : Io A E) → Keeps f m → Keeps f n → Keeps f (if b then m else n)
  Keeps-if true m n km kn = km
  Keeps-if false m n km kn = kn

-- The close of the connection, by this side.
abbrev pub close_call : World → Option (ℕ × Bytes)
close_call w = w.closed

pub open_stream-Keeps : Keeps close_call open_stream
open_stream-Keeps = record { at = λ w. ground arith }

pub finish-Keeps : Keeps close_call finish
finish-Keeps = record { at = λ w. ground arith }

pub connect-Keeps : (addr : EndpointAddr) → Keeps close_call (connect addr)
connect-Keeps addr = record { at = λ w. ground arith }

pub write_all-Keeps : (bytes : Bytes) → Keeps close_call (write_all bytes)
unfolding write_all
write_all-Keeps bytes = record { at = λ w. ground arith }

pub read_exact-Keeps : (n : ℕ) → Keeps close_call (read_exact n)
unfolding read_exact
read_exact-Keeps n = record { at = λ w. ground arith }

pub random-Keeps : {E : Type 0} → Keeps close_call (random {E = E})
random-Keeps = record { at = λ w. refl }

pub closed_reason-Keeps : {E : Type 0} → Keeps close_call (closed_reason {E = E})
closed_reason-Keeps = record { at = λ w. refl }

pub ruleset keeps_rules = (
  Keeps-bind, Keeps-await, Keeps-lift, Keeps-pure, Keeps-fail, Keeps-if, open_stream-Keeps,
  finish-Keeps, connect-Keeps, write_all-Keeps, read_exact-Keeps, random-Keeps, closed_reason-Keeps,
)
