-- ===== src/Wire/Frames.antt =====
-- What `write_msg` puts on the wire, and what `read_msg` takes off it.
use iroh_hyde_auth.Common.{
  true, sym, [], append-nil, ℕ, ◌+◌, ◌≤◌, ◌≡◌, refl, ap, ◌∙◌, none, ◌++◌, append_assoc, arith,
  Bytes, IsU32, length, take, drop, drop-drop, ltb, ltb→le, length-append, take-append, drop-append,
  length-take, u32_to_be_bytes, u32_from_be_bytes, length-u32_to_be_bytes,
  u32_from_be_bytes-to_be_bytes,
}
use iroh_hyde_auth.Error.{ok, map_err, transport, codec}
use iroh_hyde_auth.Net.{World, arrived, write_all, read_exact, lift, await_map_err}
use iroh_hyde_auth.Net.Inversion.{bind_ok, lift_ok, await_ok, guard_ok}
use iroh_hyde_auth.Net.Healthy.{IsHealthy}
use iroh_hyde_auth.Wire.Messages.{max_msg}
use iroh_hyde_auth.Wire.Framing.{Postcard, frame_len, write_msg, read_msg}

-- The big-endian length, and the message.
unfoldable pub frame : Bytes → Bytes
frame bytes = u32_to_be_bytes (length bytes) ++ bytes

pub length-frame : (bytes : Bytes) → length (frame bytes) ≡ 4 + length bytes
unfolding frame
length-frame bytes = omega (
  arith,
  length-append (u32_to_be_bytes (length bytes)) bytes,
  length-u32_to_be_bytes (length bytes),
)

-- A world in which `bytes` more have been written, or `n` more read.
abbrev pub wrote : Bytes → World → World
wrote bytes w = record w { sent = w.sent ++ bytes }

-- A world in which this side has finished its stream.
abbrev pub ended : World → World
ended w = record w { finished = true }

abbrev pub took : ℕ → World → World
took n w = record w { taken = w.taken + n }

-- These bytes are the next message that had arrived in this world: they stand behind a big-endian
-- length of their own, and are at most as many as a message may have.
abbrev pub IsNext : Bytes → World → Type 0
IsNext bytes w =
    (4 ≤ length (arrived w))
    × (length bytes ≤ max_msg)
    × (bytes ≡ take (length bytes) (drop 4 (arrived w)))
    × (u32_from_be_bytes (take 4 (arrived w)) ≡ length bytes)

pub write_all_lem :
    (bytes : Bytes) (w : World)
    → w.remote.write_error (w.sent ++ bytes) ≡ none
    → write_all bytes w ≡ (ok tt, wrote bytes w)
unfolding write_all
write_all_lem bytes w h = ground arith

pub write_all_done :
    (bytes : Bytes) (w : World) {w' : World} → write_all bytes w ≡ (ok tt, w') → w' ≡ wrote bytes w
unfolding write_all
write_all_done bytes w e = ground arith

-- `read_exact` gives the next `n` bytes, if they have arrived.
pub read_exact_lem :
    (n : ℕ) (w : World) (bytes rest : Bytes)
    → arrived w ≡ bytes ++ rest
    → length bytes ≡ n
    → read_exact n w ≡ (ok bytes, took n w)
unfolding read_exact
read_exact_lem n w bytes rest e h =
    ground (arith, e, ap length e, length-append bytes rest, take-append n bytes rest h)

-- What is left after the first `n` bytes are read.
pub arrived-took :
    (n : ℕ) (w : World) (bytes rest : Bytes)
    → arrived w ≡ bytes ++ rest
    → length bytes ≡ n
    → arrived (took n w) ≡ rest
arrived-took n w bytes rest e h =
    drop-drop w.taken n (w.remote.stream w.sent) ∙ ap (drop n) e ∙ drop-append n bytes rest h

pub read_exact_done :
    (n : ℕ) (w : World) {bytes : Bytes} {w' : World}
    → read_exact n w ≡ (ok bytes, w')
    → (n ≤ length (arrived w)) × (bytes ≡ take n (arrived w)) × (w' ≡ took n w)
unfolding read_exact
read_exact_done n w e = ground arith

module _ {T : Type 0} (postcard : Postcard T) (msg : T) where
  -- A message that encodes into fewer than 2 ^ 32 bytes goes out as one frame, if no write fails.
  pub write_msg_lem :
      (bytes : Bytes) (w : World)
      → postcard.to_allocvec msg ≡ ok bytes
      → IsU32 (length bytes)
      → w.remote.write_error (w.sent ++ u32_to_be_bytes (length bytes)) ≡ none
      → w.remote.write_error (w.sent ++ frame bytes) ≡ none
      → write_msg postcard msg w ≡ (ok tt, wrote (frame bytes) w)
  unfolding write_msg frame
  write_msg_lem bytes w e small h k = ground (
    arith,
    write_all_lem (u32_to_be_bytes (length bytes)) w h,
    write_all_lem bytes (wrote (u32_to_be_bytes (length bytes)) w) (rw append_assoc k),
    append_assoc w.sent (u32_to_be_bytes (length bytes)) bytes,
  )

  -- If `write_msg` succeeds, postcard has encoded the message in fewer than 2 ^ 32 bytes, and one
  -- frame of them has been written and nothing else has changed.
  pub write_msg_done :
      (w : World) {w' : World}
      → write_msg postcard msg w ≡ (ok tt, w')
      → (bytes : Bytes) × (postcard.to_allocvec msg ≡ ok bytes)
        × IsU32 (length bytes)
        × (w' ≡ wrote (frame bytes) w)
  unfolding write_msg frame_len frame
  write_msg_done w e =
      bind_ok (lift (map_err codec (postcard.to_allocvec msg))) _ w e λ bytes w₁ encoded e₁.
        bind_ok (lift (frame_len (length bytes))) _ w₁ e₁ λ len w₂ fits e₂.
          bind_ok (await_map_err transport (write_all (u32_to_be_bytes len))) _ w₂ e₂
            λ t w₃ head e₃. (
              bytes,
              ground (arith, encoded),
              ground (arith, fits),
              ground (
                arith,
                encoded,
                fits,
                lift_ok codec (postcard.to_allocvec msg) w encoded,
                write_all_done (u32_to_be_bytes len) w₂
                    (await_ok transport (write_all (u32_to_be_bytes len)) w₂ head),
                write_all_done bytes w₃ (await_ok transport (write_all bytes) w₃ e₃),
                append_assoc w.sent (u32_to_be_bytes (length bytes)) bytes,
              ),
            )

module _ {T : Type 0} (postcard : Postcard T) (max : ℕ) where
  -- A frame that has arrived is read as the message that its bytes decode to, and is taken off the
  -- stream, if the bytes are at most as many as the limit and fewer than 2 ^ 32.
  pub read_msg-frame :
      (msg : T) (bytes rest : Bytes) (w : World)
      → arrived w ≡ frame bytes ++ rest
      → length bytes ≤ max
      → IsU32 (length bytes)
      → postcard.from_bytes bytes ≡ ok msg
      → read_msg postcard max w ≡ (ok msg, took (4 + length bytes) w)
  unfolding read_msg frame
  read_msg-frame msg bytes rest w e fits small d =
      let split = e ∙ append_assoc (u32_to_be_bytes (length bytes)) bytes rest in
      ground (
        arith,
        read_exact_lem 4 w (u32_to_be_bytes (length bytes)) (bytes ++ rest) split
            (length-u32_to_be_bytes (length bytes)),
        u32_from_be_bytes-to_be_bytes (length bytes) small,
        read_exact_lem (length bytes) (took 4 w) bytes rest
            (arrived-took 4 w (u32_to_be_bytes (length bytes)) (bytes ++ rest) split
              (length-u32_to_be_bytes (length bytes)))
            refl,
      )

  -- If `read_msg` succeeds, its message is what postcard decodes from bytes that stand behind a
  -- big-endian length of their own in what had arrived, at most as many as the limit; and just the
  -- length and those bytes have been taken off the stream.
  pub read_msg_done :
      (w : World) {msg : T} {w' : World}
      → read_msg postcard max w ≡ (ok msg, w')
      → (bytes : Bytes) × (postcard.from_bytes bytes ≡ ok msg)
        × (length bytes ≤ max)
        × (bytes ≡ take (length bytes) (drop 4 (arrived w)))
        × (w' ≡ took (4 + length bytes) w)
        × (u32_from_be_bytes (take 4 (arrived w)) ≡ length bytes)
  unfolding read_msg
  read_msg_done w e = bind_ok (await_map_err transport (read_exact 4)) _ w e λ len_buf w₁ head e₁.
      let n = u32_from_be_bytes len_buf in
      let fits = guard_ok (ltb max n) _ _ w₁ e₁ in
      bind_ok (await_map_err transport (read_exact n)) _ w₁ fits.1 λ buf w₂ body e₂.
        let header = read_exact_done 4 w (await_ok transport (read_exact 4) w head) in
        let payload = read_exact_done n w₁ (await_ok transport (read_exact n) w₁ body) in
        let decoded = lift_ok codec (postcard.from_bytes buf) w₂ e₂ in
        let size : length buf ≡ n =
          omega (arith, payload, ap length payload.1, length-take n (arrived w₁)) in
        (
          buf,
          decoded.0,
          rw size (ltb→le max n fits.0),
          ground (arith, size, payload, header, drop-drop w.taken 4 (w.remote.stream w.sent)),
          ground (arith, size, decoded, payload, header),
          ap u32_from_be_bytes (sym header.1) ∙ sym size,
        )

  -- There was a whole length to read.
  pub read_msg_header :
      (w : World) {msg : T} {w' : World}
      → read_msg postcard max w ≡ (ok msg, w')
      → 4 ≤ length (arrived w)
  unfolding read_msg
  read_msg_header w e =
      bind_ok (await_map_err transport (read_exact 4)) _ w e
        λ len_buf w₁ head e₁. (read_exact_done 4 w (await_ok transport (read_exact 4) w head)).0

-- postcard gives a message back: the message encodes to `bytes`, which decode to it.
pub record Encodes {T : Type 0} (postcard : Postcard T) (msg : T) (bytes : Bytes) : Type 0 where
  pub encodes : postcard.to_allocvec msg ≡ ok bytes
  pub decodes : postcard.from_bytes bytes ≡ ok msg
  pub fits : length bytes ≤ max_msg

module _ {T : Type 0} (postcard : Postcard T) (msg : T) (bytes : Bytes)
    (c : Encodes postcard msg bytes) where
  pub write_msg-Encodes :
      (w : World) → IsHealthy w.remote → write_msg postcard msg w ≡ (ok tt, wrote (frame bytes) w)
  write_msg-Encodes w h =
      write_msg_lem postcard msg bytes w c.encodes (omega (arith, c.fits))
        (h.writes (w.sent ++ u32_to_be_bytes (length bytes))) (h.writes (w.sent ++ frame bytes))

  pub read_msg-Encodes :
      (w : World) (rest : Bytes)
      → arrived w ≡ frame bytes ++ rest
      → read_msg postcard max_msg w ≡ (ok msg, took (4 + length bytes) w)
  read_msg-Encodes w rest e =
      read_msg-frame postcard max_msg msg bytes rest w e c.fits (omega (arith, c.fits)) c.decodes

-- What stands behind a frame.
pub drop-frame : (bytes rest : Bytes) → drop (4 + length bytes) (frame bytes ++ rest) ≡ rest
drop-frame bytes rest = drop-append (4 + length bytes) (frame bytes) rest (length-frame bytes)

pub drop-frame_only : (bytes : Bytes) → drop (4 + length bytes) (frame bytes) ≡ []
drop-frame_only bytes =
    ap (drop (4 + length bytes)) (sym (append-nil (frame bytes))) ∙ drop-frame bytes []
