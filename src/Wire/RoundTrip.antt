-- ===== src/Wire/RoundTrip.antt =====
-- One end's `write_msg`, read by the other end's `read_msg`.
use iroh_hyde_auth.Common.{
  ℕ, ◌+◌, ◌≡◌, refl, ap, ◌∙◌, true, inl, inr, ◌++◌, append_assoc, arith, Bytes, IsU32, length, ltb,
  ltb→le, drop, drop-append, u32_to_be_bytes, length-u32_to_be_bytes, u32_from_be_bytes-to_be_bytes,
  Bool-cases, if◌then◌else◌,
}
use iroh_hyde_auth.Error.{ok, err, message_too_large}
use iroh_hyde_auth.Net.{World, arrived}
use iroh_hyde_auth.Wire.Framing.{Postcard, write_msg, read_msg}
use iroh_hyde_auth.Wire.Frames.{frame, took, read_exact_lem, write_msg_done, read_msg-frame}

module _ {T : Type 0} (postcard : Postcard T) (msg : T) (max : ℕ) where
  -- A frame over the limit is refused by its length, and only the length is taken off the stream.
  read_msg-frame_long :
      (bytes rest : Bytes) (r : World)
      → arrived r ≡ frame bytes ++ rest
      → IsU32 (length bytes)
      → ltb max (length bytes) ≡ true
      → read_msg postcard max r ≡ (err (message_too_large (length bytes)), took 4 r)
  unfolding read_msg frame
  read_msg-frame_long bytes rest r e small long = ground (
    arith,
    read_exact_lem 4 r (u32_to_be_bytes (length bytes)) (bytes ++ rest)
        (e ∙ append_assoc (u32_to_be_bytes (length bytes)) bytes rest)
        (length-u32_to_be_bytes (length bytes)),
    u32_from_be_bytes-to_be_bytes (length bytes) small,
  )

  -- What one end has written with `write_msg`, with success, the other end reads with `read_msg` as
  -- that message, and takes off the stream just what was written; unless the encoding is longer than
  -- the reader's limit, which is an error that says how long, and the message is left unread. This
  -- is where postcard gives the message back, and what was written is next in what has arrived.
  pub read_msg-write_msg :
      (w w' r : World) (bytes rest : Bytes)
      → write_msg postcard msg w ≡ (ok tt, w')
      → postcard.to_allocvec msg ≡ ok bytes
      → postcard.from_bytes bytes ≡ ok msg
      → arrived r ≡ drop (length w.sent) w'.sent ++ rest
      → read_msg postcard max r ≡ (
          if ltb max (length bytes)
          then (err (message_too_large (length bytes)), took 4 r)
          else (ok msg, took (4 + length bytes) r))
  read_msg-write_msg w w' r bytes rest written encodes decodes e =
      let (b, encoded, small, left) = write_msg_done postcard msg w written in
      let same : b ≡ bytes = ground (arith, encoded, encodes) in
      let small' : IsU32 (length bytes) = ground (arith, same, small) in
      let next : arrived r ≡ frame bytes ++ rest =
        e
        ∙ ap (λ v. drop (length w.sent) v.sent ++ rest) left
        ∙ ap (λ v. v ++ rest) (drop-append (length w.sent) w.sent (frame b) refl)
        ∙ ap (λ v. frame v ++ rest) same in
      elim (Bool-cases (ltb max (length bytes))) [
        | inl long ↦ rw long (read_msg-frame_long bytes rest r next small' long)
        | inr fits ↦ rw fits (
            read_msg-frame postcard max msg bytes rest r next (ltb→le max (length bytes) fits)
              small' decodes)
      ]
