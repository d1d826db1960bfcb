-- ===== src/Permissions.antt =====
-- server/utils/permissions.ts: which calls a user may make.
pub mod Caps
pub mod Callers
