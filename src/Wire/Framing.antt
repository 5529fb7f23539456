-- ===== src/Wire/Framing.antt =====
-- `write_msg` and `read_msg` of wire.rs. The encoding of a message is postcard's, and is a
-- parameter: a `Postcard T` holds what `to_allocvec` and `from_bytes` do at the message type `T`.
use iroh_hyde_auth.Common.{
  ℕ, ◌^◌, Bytes, length, ltb, u32_to_be_bytes, u32_from_be_bytes, if◌then◌else◌, String,
}
use iroh_hyde_auth.Error.{
  StdResult, ok, err, map_err, Error, Result, transport, codec, message_too_large,
}
use iroh_hyde_auth.Net.{Io, ◌>>=◌, ◌>>◌, lift, fail, await_map_err, write_all, read_exact}
use iroh_hyde_auth.Wire.Messages.{
  ClientHello, ServerChallenge, ClientAuth, MutualHello, MutualChallenge, MutualResponse,
}

pub record Postcard (T : Type 0) : Type 0 where
  pub to_allocvec : T → StdResult Bytes String
  pub from_bytes : Bytes → StdResult T String

-- `u32::try_from(n).map_err(|_| Error::MessageTooLarge(n))`
unfoldable pub frame_len : ℕ → Result ℕ
frame_len n = if ltb n (2 ^ 32) then ok n else err (message_too_large n)

module _ {T : Type 0} (postcard : Postcard T) where
  unfoldable pub write_msg : T → Io (Unit {0}) Error
  unfolding frame_len transport
  write_msg msg = do
    bytes ← lift (map_err codec (postcard.to_allocvec msg))
    len ← lift (frame_len (length bytes))
    await_map_err transport (write_all (u32_to_be_bytes len))
    await_map_err transport (write_all bytes)

  unfoldable pub read_msg : ℕ → Io T Error
  unfolding transport
  read_msg max = do
    len_buf ← await_map_err transport (read_exact 4)
    let len = u32_from_be_bytes len_buf
    if ltb max len then fail (message_too_large len) else do
      buf ← await_map_err transport (read_exact len)
      lift (map_err codec (postcard.from_bytes buf))

-- postcard at the messages of the one-directional handshake, and at those of the mutual one
pub record Codecs : Type 0 where
  pub hello : Postcard ClientHello
  pub challenge : Postcard ServerChallenge
  pub auth : Postcard ClientAuth

pub record MutualCodecs : Type 0 where
  pub hello : Postcard MutualHello
  pub challenge : Postcard MutualChallenge
  pub response : Postcard MutualResponse
