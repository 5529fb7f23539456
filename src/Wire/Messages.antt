-- ===== src/Wire/Messages.antt =====
-- wire.rs, lines 31 to 164: the constants, the messages and the signed transcripts.
use iroh_hyde_auth.Common.{ℕ, ◌*◌, [], ◌∷◌, ◌++◌, Bytes, codes, u64_to_be_bytes}

abbrev pub alpn : Bytes
alpn = codes "iroh-hyde-auth/0"

abbrev pub protocol_version : ℕ
protocol_version = 0

abbrev pub domain : Bytes
domain = codes "iroh-hyde-auth/v0/institutional-challenge"

abbrev pub nonce_len : ℕ
nonce_len = 32

abbrev pub endpoint_id_len : ℕ
endpoint_id_len = 32

abbrev pub close_accepted : ℕ
close_accepted = 1

abbrev pub close_denied : ℕ
close_denied = 403

abbrev pub max_msg : ℕ
max_msg = 16 * 1024

pub record ClientHello : Type 0 where
  pub version : ℕ

pub record ServerChallenge : Type 0 where
  pub version : ℕ
  pub nonce : Bytes
  pub server_unix_secs : ℕ

pub record ClientAuth : Type 0 where
  pub verifying_key : Bytes
  pub signature : Bytes
  pub client_unix_secs : ℕ

unfoldable pub transcript : Bytes → Bytes → ℕ → Bytes
transcript nonce initiator_id client_unix_secs =
    domain
    ++ ((protocol_version ∷ []) ++ (nonce ++ (initiator_id ++ u64_to_be_bytes client_unix_secs)))

abbrev pub mutual_alpn : Bytes
mutual_alpn = codes "iroh-hyde-auth/mutual/0"

abbrev pub domain_mutual : Bytes
domain_mutual = codes "iroh-hyde-auth/v0/mutual-challenge"

abbrev pub role_initiator : ℕ
role_initiator = 1

abbrev pub role_acceptor : ℕ
role_acceptor = 2

pub record MutualHello : Type 0 where
  pub version : ℕ
  pub nonce : Bytes

pub record MutualChallenge : Type 0 where
  pub version : ℕ
  pub nonce : Bytes
  pub verifying_key : Bytes
  pub signature : Bytes
  pub acceptor_unix_secs : ℕ

pub record MutualResponse : Type 0 where
  pub verifying_key : Bytes
  pub signature : Bytes
  pub initiator_unix_secs : ℕ

unfoldable pub mutual_transcript : ℕ → Bytes → Bytes → ℕ → Bytes
mutual_transcript role peer_nonce signer_id time =
    domain_mutual
    ++ ((protocol_version ∷ [])
        ++ ((role ∷ []) ++ (peer_nonce ++ (signer_id ++ u64_to_be_bytes time))))
