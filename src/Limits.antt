-- ===== src/Limits.antt =====
-- How much a caller of the server may ask for: the rate limiter of server/utils/api.ts, and the
-- channels of server/utils/channel-limits.ts.
pub mod Rate
pub mod Admitted
pub mod Channels
pub mod Recovered
