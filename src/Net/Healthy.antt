-- ===== src/Net/Healthy.antt =====
-- A network that makes no errors of its own.
use iroh_hyde_auth.Common.{◌≡◌, none, Bytes}
use iroh_hyde_auth.Net.{Remote}

pub record IsHealthy (r : Remote) : Type 0 where
  pub connects : r.connect_error ≡ none
  pub opens : r.stream_error ≡ none
  pub writes : (bytes : Bytes) → r.write_error bytes ≡ none
  pub finishes : r.finish_error ≡ none
