-- ===== src/SshAgent/Answers.antt =====
-- What ssh_agent.rs makes of the answers of an agent that speaks the protocol.
use iroh_hyde_auth.Common.{
  ℕ, ◌+◌, ◌^◌, ◌<◌, ◌≡◌, refl, Bool, false, Option, none, some, String, List, [], ◌∷◌, ◌++◌,
  append_assoc, append-nil, arith, Bytes, IsU32, length, length-append, nat_eq, list_eq, beq_refl,
  if◌then◌else◌,
}
use iroh_hyde_auth.Error.{ok, err, Result}
use iroh_hyde_auth.SshAgent.Reader
use iroh_hyde_auth.SshAgent.Reader.{
  Reader, ◌>>=◌, read_u8, read_u32, read_string, put_string, ed25519_key_type,
  parse_ed25519_public_key,
}
use iroh_hyde_auth.SshAgent.Client.{
  SshAgentSigner, sign_response, wanted, no_match, choose, select_identity, read_signature,
}
use iroh_hyde_auth.SshAgent.Layout.{
  ssh_string, length-ssh_string, IsAt, skip, new-IsAt, take_bytes-IsAt, read_string-IsAt,
}

module _ (r : Reader) (b : ℕ) (rest : Bytes) (at : IsAt r (b ∷ rest)) where
  pub read_u8-IsAt : (read_u8 r ≡ ok (b, skip 1 r)) × IsAt (skip 1 r) rest
  unfolding read_u8
  read_u8-IsAt =
      let taken = take_bytes-IsAt r (b ∷ []) rest at 1 refl in (ground (arith, taken.0), taken.1)

-- The answer to a request for a signature.
abbrev pub signature_answer : Bytes → Bytes
signature_answer sig = sign_response ∷ ssh_string (ssh_string ed25519_key_type ++ ssh_string sig)

abbrev signature_blob : Bytes → Bytes
signature_blob sig = ssh_string ed25519_key_type ++ ssh_string sig

length-signature_blob : (sig : Bytes) → length (signature_blob sig) ≡ 19 + length sig
length-signature_blob sig = omega (
  arith,
  length-append (ssh_string ed25519_key_type) (ssh_string sig),
  length-ssh_string ed25519_key_type,
  length-ssh_string sig,
)

pub length-signature_answer : (sig : Bytes) → length (signature_answer sig) ≡ 24 + length sig
length-signature_answer sig =
    omega (arith, length-ssh_string (signature_blob sig), length-signature_blob sig)

-- An agent's answer with an ed25519 signature gives that signature, if it has fewer than 2 ^ 31 bytes.
pub read_signature-answer :
    (sig : Bytes) → length sig < 2 ^ 31 → read_signature (signature_answer sig) ≡ ok sig
unfolding read_signature
read_signature-answer sig small =
    let answer = signature_answer sig in
    let blob = signature_blob sig in
    let start = new-IsAt answer (omega (arith, length-signature_answer sig)) in
    let kind = read_u8-IsAt (Reader.new answer) sign_response (ssh_string blob) start in
    let body =
      read_string-IsAt (skip 1 (Reader.new answer)) blob []
        (omega (arith, length-signature_blob sig)) (rw (append-nil (ssh_string blob)) kind.1) in
    let sig_type =
      read_string-IsAt (Reader.new blob) ed25519_key_type (ssh_string sig) (omega arith)
        (new-IsAt blob (omega (arith, length-signature_blob sig))) in
    let raw =
      read_string-IsAt (skip (length ed25519_key_type) (skip 4 (Reader.new blob))) sig []
        (omega arith) (rw (append-nil (ssh_string sig)) sig_type.1) in
    ground (arith, kind.0, body.0, sig_type.0, raw.0, beq_refl ed25519_key_type)

-- The identities of an answer: the key blob and the comment of each.
abbrev pub identity_fields : List (Bytes × Bytes) → Bytes
identity_fields [] = []
identity_fields ((blob, comment) ∷ ids) =
    ssh_string blob ++ (ssh_string comment ++ identity_fields ids)

abbrev pub AreU32 : List (Bytes × Bytes) → Type 0
AreU32 [] = Unit {0}
AreU32 ((blob, comment) ∷ ids) = IsU32 (length blob) × IsU32 (length comment) × AreU32 ids

-- The choice that the documentation of `connect` describes: the first identity with an ed25519 key,
-- and with the wanted one if one is wanted.
abbrev pub matches : Option Bytes → Option Bytes → Bool
matches want none = false
matches want (some pk) = wanted want pk

abbrev pub key_of : Option Bytes → Bytes
key_of none = []
key_of (some pk) = pk

abbrev pub first_match : String → Option Bytes → List (Bytes × Bytes) → Result SshAgentSigner
first_match sock want [] = err no_match
first_match sock want ((blob, comment) ∷ ids) =
    let pk = parse_ed25519_public_key blob in
    let rest = first_match sock want ids in
    if matches want pk
    then ok (record { sock = sock; key_blob = blob; public_key = key_of pk })
    else rest

module _ (sock : String) (want : Option Bytes) where
  chosen :
      (blob : Bytes) (rest : Result SshAgentSigner) (pk : Option Bytes)
      → choose sock want blob pk rest ≡ (
          if matches want pk
          then ok (record { sock = sock; key_blob = blob; public_key = key_of pk })
          else rest)
  chosen blob rest none = refl
  chosen blob rest (some pk) = refl

  pub select_identity-fields :
      (ids : List (Bytes × Bytes)) (r : Reader) (rest : Bytes)
      → AreU32 ids
      → IsAt r (identity_fields ids ++ rest)
      → select_identity sock want (length ids) r ≡ first_match sock want ids
  unfolding select_identity
  select_identity-fields [] r rest small at = refl
  select_identity-fields ((blob, comment) ∷ ids) r rest small at =
      let key =
        read_string-IsAt r blob ((ssh_string comment ++ identity_fields ids) ++ rest) small.0 (
          rw (append_assoc (ssh_string blob) (ssh_string comment ++ identity_fields ids) rest) at
            at) in
      let after_key = skip (length blob) (skip 4 r) in
      let text =
        read_string-IsAt after_key comment (identity_fields ids ++ rest) small.1
          (rw (append_assoc (ssh_string comment) (identity_fields ids) rest) at key.1) in
      let later =
        select_identity-fields ids (skip (length comment) (skip 4 after_key)) rest small.2 text.1 in
      ground (
        arith,
        key.0,
        text.0,
        later,
        chosen blob (first_match sock want ids) (parse_ed25519_public_key blob),
      )
