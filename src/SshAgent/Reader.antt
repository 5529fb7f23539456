-- ===== src/SshAgent/Reader.antt =====
-- `Reader`, `put_string` and `parse_ed25519_public_key` of ssh_agent.rs.
use iroh_hyde_auth.Common.{
  ℕ, ◌+◌, ◌^◌, ◌%◌, Option, none, some, [], ◌∷◌, ◌++◌, Bytes, codes, length, take, drop, ltb,
  nat_beq, not, ◌==◌, list_eq, u32_to_be_bytes, u32_from_be_bytes, if◌then◌else◌,
}
use iroh_hyde_auth.Error.{ok, err, Error, Result, signer_failed}

pub record Reader : Type 0 where
  pub buf : Bytes
  pub pos : ℕ

-- A call on the reader returns it with the place moved on; after an error it is not used again.
infixl 5 ◌>>=◌
abbrev pub ◌>>=◌ {ℓ κ} : {A : Type ℓ} {B : Type κ} → Result A → (A → Result B) → Result B
ok a >>= f = f a
err e >>= f = err e

unfoldable pub new : Bytes → Reader
new buf = record { buf = buf; pos = 0 }

abbrev pub truncated : Error
truncated = signer_failed "ssh-agent: truncated message"

-- `checked_add` fails where the sum leaves a 64-bit `usize`; a buffer is shorter than that.
unfoldable pub take_bytes : Reader → ℕ → Result (Bytes × Reader)
take_bytes r n =
    let end = r.pos + n in
    if not (ltb end (2 ^ 64))
    then err truncated
    else if ltb (length r.buf) end
    then err truncated
    else ok (take n (drop r.pos r.buf), record r { pos = end })

-- `[0]`, of a slice that is not empty; out of bounds it would panic
abbrev pub first : Bytes → ℕ
first [] = 0
first (b ∷ rest) = b

unfoldable pub read_u8 : Reader → Result (ℕ × Reader)
read_u8 r = do (b, r') ← take_bytes r 1; ok (first b, r')

unfoldable pub read_u32 : Reader → Result (ℕ × Reader)
read_u32 r = do (b, r') ← take_bytes r 4; ok (u32_from_be_bytes b, r')

unfoldable pub read_string : Reader → Result (Bytes × Reader)
unfolding read_u32
read_string r = do (len, r') ← read_u32 r; take_bytes r' len

-- `s.len() as u32` keeps the low 32 bits
unfoldable pub put_string : Bytes → Bytes → Bytes
put_string buf s = buf ++ (u32_to_be_bytes (length s % 2 ^ 32) ++ s)

abbrev pub ed25519_key_type : Bytes
ed25519_key_type = codes "ssh-ed25519"

-- `try_into` an array of `n` bytes
abbrev pub to_array : ℕ → Bytes → Option Bytes
to_array n bytes = if nat_beq (length bytes) n then some bytes else none

abbrev public_key_of : Bytes × Reader → Option Bytes
public_key_of (key_type, r) =
    if not (key_type == ed25519_key_type)
    then none
    else elim (read_string r) [ ok (pk, rest) ↦ to_array 32 pk | err e ↦ none ]

unfoldable pub parse_ed25519_public_key : Bytes → Option Bytes
unfolding new
parse_ed25519_public_key key_blob = elim (read_string (new key_blob)) [
  | ok read ↦ public_key_of read
  | err e ↦ none
]
