-- ===== src/Net/Inversion.antt =====
-- A block that succeeds has succeeded at each of its steps. Each rule hands what the step did to
-- the proof of a goal `P`.
use iroh_hyde_auth.Common.{◌≡◌, refl, Bool, true, false, arith, if◌then◌else◌}
use iroh_hyde_auth.Error.{StdResult, ok, err, map_err}
use iroh_hyde_auth.Net.{World, Io, continue, ◌>>=◌, await_map_err, lift, fail}

module _ {ℓ κ μ} {A : Type ℓ} {B : Type κ} {E : Type 0} {P : Type μ} where
  continue_ok :
      (p : StdResult A E × World) (f : A → Io B E) {b : B} {w' : World}
      → continue p.0 f p.1 ≡ (ok b, w')
      → ((a : A) (w₁ : World) → p ≡ (ok a, w₁) → f a w₁ ≡ (ok b, w') → P)
      → P
  continue_ok (ok a, w₁) f e k = k a w₁ refl e
  continue_ok (err x, w₁) f e k = absurd (ground (arith, e))

  pub bind_ok :
      (m : Io A E) (f : A → Io B E) (w : World) {b : B} {w' : World}
      → (m >>= f) w ≡ (ok b, w')
      → ((a : A) (w₁ : World) → m w ≡ (ok a, w₁) → f a w₁ ≡ (ok b, w') → P)
      → P
  bind_ok m f w e k = continue_ok (m w) f e k

module _ {ℓ} {A : Type ℓ} {E F : Type 0} where
  mapped_ok :
      (f : E → F) (p : StdResult A E × World) {a : A} {w' : World}
      → await_map_err f (λ w. p) p.1 ≡ (ok a, w')
      → p ≡ (ok a, w')
  mapped_ok f (ok a, w₁) e = ground (arith, e)
  mapped_ok f (err x, w₁) e = ground (arith, e)

  pub await_ok :
      (f : E → F) (m : Io A E) (w : World) {a : A} {w' : World}
      → await_map_err f m w ≡ (ok a, w')
      → m w ≡ (ok a, w')
  await_ok f m w e = mapped_ok f (m w) e

  pub lift_ok :
      (f : E → F) (r : StdResult A E) (w : World) {a : A} {w' : World}
      → lift (map_err f r) w ≡ (ok a, w')
      → (r ≡ ok a) × (w' ≡ w)
  lift_ok f (ok a) w e = ground (arith, e)
  lift_ok f (err x) w e = ground (arith, e)

module _ {ℓ} {A : Type ℓ} {E : Type 0} where
  pub guard_ok :
      (b : Bool) (x : E) (m : Io A E) (w : World) {a : A} {w' : World}
      → (if b then fail x else m) w ≡ (ok a, w')
      → (b ≡ false) × (m w ≡ (ok a, w'))
  guard_ok true x m w e = ground (arith, e)
  guard_ok false x m w e = (refl, e)
