-- ===== src/Examples.antt =====
-- examples/echo-auth.rs and examples/mutual-echo.rs: an application protocol behind the gates, and
-- the wiring of an endpoint for each of the two handshakes.
pub mod Echo
pub mod Line
pub mod EchoAuth
pub mod MutualEcho
