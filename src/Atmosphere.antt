-- ===== src/Atmosphere.antt =====
-- jquery.atmosphere.js: the client of the push server.
mod Defs
mod Transport
mod Publish
mod Limits
mod Bodies
mod Steps
mod Handlers
mod Reach
mod Globals
mod Callbacks
mod Streams
mod Tests
