-- ===== src/SshAgent/Layout.antt =====
-- The reader of ssh_agent.rs against the encoding that it reads.
use iroh_hyde_auth.Common.{
  ℕ, ◌+◌, ◌^◌, ◌<◌, ◌≡◌, refl, ap, ◌∙◌, some, [], ◌++◌, append_assoc, append-nil, arith, Bytes,
  IsU32, length, drop, drop-drop, length-append, take-append, drop-append, u32_to_be_bytes,
  length-u32_to_be_bytes, u32_from_be_bytes-to_be_bytes, list_eq, beq_refl,
}
use iroh_hyde_auth.Error.{ok}
use iroh_hyde_auth.SshAgent.Reader.{
  Reader, new, take_bytes, read_u32, read_string, ed25519_key_type, parse_ed25519_public_key,
}

-- A length-prefixed field.
unfoldable pub ssh_string : Bytes → Bytes
ssh_string s = u32_to_be_bytes (length s) ++ s

-- The reader stands before `rest`, in a buffer that an address space holds.
pub record IsAt (r : Reader) (rest : Bytes) : Type 0 where
  pub ahead : drop r.pos r.buf ≡ rest
  pub size : r.pos + length rest ≡ length r.buf
  pub holds : length r.buf < 2 ^ 64

abbrev pub skip : ℕ → Reader → Reader
skip n r = record r { pos = r.pos + n }

module _ (r : Reader) (bytes rest : Bytes) (at : IsAt r (bytes ++ rest)) where
  pub take_bytes-IsAt :
      (n : ℕ) → length bytes ≡ n → (take_bytes r n ≡ ok (bytes, skip n r)) × IsAt (skip n r) rest
  unfolding take_bytes
  take_bytes-IsAt n h = (
    ground (arith, at, length-append bytes rest, take-append n bytes rest h),
    record {
      ahead = drop-drop r.pos n r.buf ∙ ap (drop n) at.ahead ∙ drop-append n bytes rest h;
      size = omega (arith, at.size, length-append bytes rest);
      holds = at.holds;
    },
  )

pub new-IsAt : (buf : Bytes) → length buf < 2 ^ 64 → IsAt (new buf) buf
unfolding new
new-IsAt buf h = record { ahead = refl; size = omega arith; holds = h }

module _ (r : Reader) (n : ℕ) (rest : Bytes) (small : IsU32 n)
    (at : IsAt r (u32_to_be_bytes n ++ rest)) where
  pub read_u32-IsAt : (read_u32 r ≡ ok (n, skip 4 r)) × IsAt (skip 4 r) rest
  unfolding read_u32
  read_u32-IsAt =
      let taken = take_bytes-IsAt r (u32_to_be_bytes n) rest at 4 (length-u32_to_be_bytes n) in
      (ground (arith, taken.0, u32_from_be_bytes-to_be_bytes n small), taken.1)

pub length-ssh_string : (s : Bytes) → length (ssh_string s) ≡ 4 + length s
unfolding ssh_string
length-ssh_string s =
    omega (arith, length-append (u32_to_be_bytes (length s)) s, length-u32_to_be_bytes (length s))

module _ (r : Reader) (s rest : Bytes) (small : IsU32 (length s))
    (at : IsAt r (ssh_string s ++ rest)) where
  -- Before a length-prefixed field of fewer than 2 ^ 32 bytes, in a buffer of fewer than 2 ^ 64,
  -- `read_string` gives the field's bytes, and the reader stands before what follows the field.
  pub read_string-IsAt :
      (read_string r ≡ ok (s, skip (length s) (skip 4 r))) × IsAt (skip (length s) (skip 4 r)) rest
  unfolding read_string ssh_string
  read_string-IsAt =
      let len =
        read_u32-IsAt r (length s) (s ++ rest) small
          (rw (← append_assoc (u32_to_be_bytes (length s)) s rest) at) in
      let body = take_bytes-IsAt (skip 4 r) s rest len.1 (length s) refl in
      (ground (arith, len.0, body.0), body.1)

-- An ed25519 key blob, its type and its 32 bytes, parses as those bytes.
pub parse-blob :
    (pk : Bytes)
    → length pk ≡ 32
    → parse_ed25519_public_key (ssh_string ed25519_key_type ++ ssh_string pk) ≡ some pk
unfolding parse_ed25519_public_key
parse-blob pk h =
    let blob = ssh_string ed25519_key_type ++ ssh_string pk in
    let size : length blob < 2 ^ 64 = omega (
      arith,
      h,
      length-append (ssh_string ed25519_key_type) (ssh_string pk),
      length-ssh_string ed25519_key_type,
      length-ssh_string pk,
    ) in
    let key_type =
      read_string-IsAt (new blob) ed25519_key_type (ssh_string pk) (omega arith)
        (new-IsAt blob size) in
    let body =
      read_string-IsAt (skip (length ed25519_key_type) (skip 4 (new blob))) pk [] (omega (arith, h))
        (rw (append-nil (ssh_string pk)) key_type.1) in
    ground (arith, h, key_type.0, body.0, beq_refl ed25519_key_type)
