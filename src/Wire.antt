-- ===== src/Wire.antt =====
-- wire.rs: the constants, the messages and the signed transcripts of both handshakes.
mod Messages
mod Framing
pub mod Transcripts
pub mod Frames
pub mod Starved
pub mod Untouched
pub mod RoundTrip
pub use Messages.*
unfoldable pub use Messages.{transcript, mutual_transcript}
pub use Framing.{Postcard, Codecs, MutualCodecs}
unfoldable pub use Framing.{write_msg, read_msg}
