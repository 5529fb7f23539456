-- ===== src/Tests/WireRuns.antt =====
-- The transcripts and the frames of wire.rs.
use iroh_hyde_auth.Common.{
  u32_from_be_bytes, ◌+◌, ◌≤◌, ◌≡◌, refl, [], u32_to_be_bytes, arith, Bytes, length, take, drop,
}
use iroh_hyde_auth.Error.{ok}
use iroh_hyde_auth.Net.{arrived, World}
use iroh_hyde_auth.Wire.RoundTrip.{read_msg-write_msg}
use iroh_hyde_auth.Wire.{ClientHello, max_msg, read_msg, write_msg}
use iroh_hyde_auth.Wire.Frames.{frame, wrote, took, write_msg_lem, read_msg-frame, read_msg_done}
use iroh_hyde_auth.Tests.Fixtures.{
  client_id, hello_codec, hello_bytes, world_with, peer, accepting, auth_bytes,
}

abbrev greeting : ClientHello
greeting = record { version = 0 }

reads : read_msg hello_codec max_msg accepting ≡ (ok greeting, took 5 accepting)
reads =
    read_msg-frame hello_codec max_msg greeting hello_bytes (frame auth_bytes) accepting refl
      (omega arith) (omega arith) refl

read_msg_done_example :
    (bytes : Bytes) × (hello_codec.from_bytes bytes ≡ ok greeting)
    × (length bytes ≤ max_msg)
    × (bytes ≡ take (length bytes) (drop 4 (arrived accepting)))
    × (took 5 accepting ≡ took (4 + length bytes) accepting)
    × (u32_from_be_bytes (take 4 (arrived accepting)) ≡ length bytes)
read_msg_done_example = read_msg_done hello_codec max_msg accepting reads

written : write_msg hello_codec greeting accepting ≡ (ok tt, wrote (frame hello_bytes) accepting)
written = write_msg_lem hello_codec greeting hello_bytes accepting refl (omega arith) refl refl

-- The acceptor of a stream that the initiator writes.
abbrev heard : World
heard = world_with (peer client_id (frame hello_bytes))

read_msg-write_msg_example : read_msg hello_codec max_msg heard ≡ (ok greeting, took 5 heard)
unfolding frame u32_to_be_bytes
read_msg-write_msg_example =
    read_msg-write_msg hello_codec greeting max_msg accepting (wrote (frame hello_bytes) accepting)
      heard hello_bytes [] written refl refl refl
