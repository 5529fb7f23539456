-- ===== src/Wire/Untouched.antt =====
-- Reading and writing messages never closes the connection.
use iroh_hyde_auth.Common.{ℕ}
use iroh_hyde_auth.Net.Keeps.{Keeps, close_call, keeps_rules}
use iroh_hyde_auth.Wire.Framing.{Postcard, write_msg, read_msg}

module _ {T : Type 0} (postcard : Postcard T) where
  pub write_msg-Keeps : (msg : T) → Keeps close_call (write_msg postcard msg)
  unfolding write_msg
  write_msg-Keeps msg = search keeps_rules depth 9

  pub read_msg-Keeps : (max : ℕ) → Keeps close_call (read_msg postcard max)
  unfolding read_msg
  read_msg-Keeps max = search keeps_rules depth 9
