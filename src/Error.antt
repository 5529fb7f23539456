-- ===== src/Error.antt =====
-- error.rs: the errors of the handshake, with the texts that `thiserror` derives for them, and the
-- standard library's `Result`.
mod Decimal
unfoldable pub use Decimal.{decimal}
use Prim.Native.String
use iroh_hyde_auth.Common.{ℕ, String, ◌≡◌, arith}

-- `std::result::Result<T, E>`
pub data StdResult {ℓ κ} (T : Type ℓ) (E : Type κ) : Type (ℓ ⊔ κ) where
  ok : T → StdResult T E
  err : E → StdResult T E

abbrev pub map_err {ℓ} : {T : Type ℓ} {E F : Type 0} → (E → F) → StdResult T E → StdResult T F
map_err f (ok t) = ok t
map_err f (err e) = err (f e)

-- A foreign error is carried by the text that it displays, also `postcard::Error` in `codec`.
pub data Error : Type 0 where
  transport_error : String → Error
  codec : String → Error
  message_too_large : ℕ → Error
  unsupported_version : ℕ → Error
  clock_skew : Error
  signer_failed : String → Error
  denied : String → Error
  authenticator_stopped : Error

-- `pub type Result<T>`
abbrev pub Result {ℓ} : Type ℓ → Type ℓ
Result T = StdResult T Error

-- `Error::Transport(e.to_string())`, of the text of `e`
unfoldable pub transport : String → Error
transport text = transport_error text

abbrev pub concat : String → String → String
concat = String.◌++◌

-- The `#[error(…)]` texts.
unfoldable pub to_string : Error → String
unfolding decimal
to_string (transport_error text) = concat "transport error: " text
to_string (codec text) = concat "codec error: " text
to_string (message_too_large n) = concat "message too large: " (concat (decimal n) " bytes")
to_string (unsupported_version v) = concat "unsupported protocol version: " (decimal v)
to_string clock_skew = "clock skew outside allowed window"
to_string (signer_failed text) = concat "institutional signer failed: " text
to_string (denied text) = concat "authentication denied: " text
to_string authenticator_stopped = "authenticator task stopped"
