-- ===== src/SshAgent/Soundness.antt =====
-- What `SshAgentSigner` can be made to hold, whatever the agent answers.
use iroh_hyde_auth.Common.{
  ℕ, zero, suc, ◌≡◌, refl, ◌⊎◌, inl, inr, true, Option, none, some, String, Bytes, arith, length,
  nat_beq_iff, not, ◌==◌, list_eq, nat_eq, Bool-cases,
}
use iroh_hyde_auth.Error.{ok, err, Result, Error}
use iroh_hyde_auth.SshAgent.Reader.{
  Reader, ◌>>=◌, read_u8, read_u32, read_string, to_array, new, parse_ed25519_public_key,
}
use iroh_hyde_auth.SshAgent.Reader
use iroh_hyde_auth.SshAgent.Client.{
  Agent, SshAgentSigner, wanted, choose, select_identity, read_identities, connect_stream, send,
  recv, connect, identities_answer,
}

-- A step that is taken has succeeded.
bound {ℓ κ μ} :
    {A : Type ℓ} {B : Type κ} {P : Type μ} (m : Result A) (f : A → Result B) {b : B}
    → (m >>= f) ≡ ok b
    → ((a : A) → m ≡ ok a → f a ≡ ok b → P)
    → P
bound (ok a) f e k = k a refl e
bound (err x) f e k = absurd (ground (arith, e))

-- A signer of the agent at `sock`, for the key in its blob, which has 32 bytes and is the wanted one.
pub record IsSound (sock : String) (want : Option Bytes) (s : SshAgentSigner) : Type 0 where
  pub sock_kept : s.sock ≡ sock
  pub of_blob : parse_ed25519_public_key s.key_blob ≡ some s.public_key
  pub size : length s.public_key ≡ 32
  pub is_wanted : wanted want s.public_key ≡ true

taken {ℓ} : {A : Type ℓ} (r : Result A) → ((a : A) × (r ≡ ok a)) ⊎ ((x : Error) × (r ≡ err x))
taken (ok a) = inl (a, refl)
taken (err x) = inr (x, refl)

array_size : (n : ℕ) (bytes pk : Bytes) → to_array n bytes ≡ some pk → length pk ≡ n
array_size n bytes pk e = ground (arith, e, nat_beq_iff (length bytes) n)

-- A parsed key has 32 bytes.
parsed_size : (blob pk : Bytes) → parse_ed25519_public_key blob ≡ some pk → length pk ≡ 32
unfolding parse_ed25519_public_key Reader.new
parsed_size blob pk e = elim (taken (read_string (new blob))) [
  | inl ((key_type, r), h) ↦ elim (taken (read_string r)) [
    | inl ((bytes, rest), h') ↦ array_size 32 bytes pk (ground (arith, e, h, h'))
    | inr (x, h') ↦ absurd (ground (arith, e, h, h'))
  ]
  | inr (x, h) ↦ absurd (ground (arith, e, h))
]

module _ (sock : String) (want : Option Bytes) where
  chosen-IsSound :
      (blob : Bytes) (pk : Option Bytes) (rest : Result SshAgentSigner) (s : SshAgentSigner)
      → parse_ed25519_public_key blob ≡ pk
      → choose sock want blob pk rest ≡ ok s
      → (rest ≡ ok s → IsSound sock want s)
      → IsSound sock want s
  chosen-IsSound blob none rest s parsed e k = k e
  chosen-IsSound blob (some pk) rest s parsed e k = elim (Bool-cases (wanted want pk)) [
    | inl asked ↦
        let same : record { sock = sock; key_blob = blob; public_key = pk } ≡ s =
          ground (arith, e, asked) in
        rw (← same) (record {
          sock_kept = refl;
          of_blob = parsed;
          size = parsed_size blob pk parsed;
          is_wanted = asked;
        })
    | inr other ↦ k (rw other at e)
  ]

  selected-IsSound :
      (count : ℕ) (r : Reader) (s : SshAgentSigner)
      → select_identity sock want count r ≡ ok s
      → IsSound sock want s
  unfolding select_identity
  selected-IsSound zero r s e = absurd (ground (arith, e))
  selected-IsSound (suc count) r s e = bound (read_string r) _ e λ (blob, r₁) key e₁.
      bound (read_string r₁) _ e₁ λ (comment, r₂) text e₂.
        chosen-IsSound blob (parse_ed25519_public_key blob) (select_identity sock want count r₂) s
          refl e₂ (selected-IsSound count r₂ s)

  read-IsSound :
      (resp : Bytes) (s : SshAgentSigner)
      → read_identities sock want resp ≡ ok s
      → IsSound sock want s
  unfolding read_identities
  read-IsSound resp s e = bound (read_u8 (new resp)) _ e λ (kind, r) head e₁.
      elim (Bool-cases (not (kind == identities_answer))) [
        | inl other ↦ absurd (ground (arith, e₁, other))
        | inr good ↦
            bound (read_u32 r) _ (rw good at e₁)
              λ (count, r₁) number e₂. selected-IsSound count r₁ s e₂
      ]

  -- Whatever an agent does, hostile or not: if `connect` gives a signer, it is for the agent's path,
  -- its public key is the one that its key blob parses to as an ed25519 key, has 32 bytes, and is
  -- the wanted key if one is wanted.
  pub connect-IsSound :
      (agents : String → Agent) (s : SshAgentSigner)
      → connect agents sock want ≡ ok s
      → IsSound sock want s
  unfolding connect
  connect-IsSound agents s e = bound (connect_stream (agents sock)) _ e λ stream opened e₁.
      bound (send stream _) _ e₁ λ stream' asked e₂.
        bound (recv stream') _ e₂ λ (resp, rest) answered e₃. read-IsSound resp s e₃
