-- ===== src/Wire/Starved.antt =====
-- Reading a message where nothing has arrived.
use iroh_hyde_auth.Common.{ℕ, ◌≡◌, [], arith}
use iroh_hyde_auth.Error.{err, transport}
use iroh_hyde_auth.Net.{World, arrived, read_exact}
use iroh_hyde_auth.Wire.Framing.{Postcard, read_msg}

-- The read ends with the stream's error, and takes nothing.
pub read_msg_starved :
    {T : Type 0} (postcard : Postcard T) (max : ℕ) (w : World)
    → arrived w ≡ []
    → read_msg postcard max w ≡ (err (transport (w.remote.read_error w.sent)), w)
unfolding read_msg read_exact
read_msg_starved postcard max w e = ground (arith, e)
