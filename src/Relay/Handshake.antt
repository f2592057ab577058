-- ===== src/Relay/Handshake.antt =====
-- The stage of a handshake reads the newest segment.
