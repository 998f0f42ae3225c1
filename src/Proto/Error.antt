-- ===== src/Proto/Error.antt =====
-- crates/krot-proto/src/error.rs: the error codes, u16 on the wire.
use krot.Base.{ℕ}

abbrev pub ErrorCode : Type 0
ErrorCode = ℕ

abbrev pub protocol_violation : ErrorCode
protocol_violation = 0x0001

abbrev pub unknown_stream_kind : ErrorCode
unknown_stream_kind = 0x0003

abbrev pub unexpected_stream : ErrorCode
unexpected_stream = 0x0004

abbrev pub authentication_failed : ErrorCode
authentication_failed = 0x0010

abbrev pub unknown_identity : ErrorCode
unknown_identity = 0x0011

abbrev pub token_expired : ErrorCode
token_expired = 0x0013

abbrev pub enroll_disabled : ErrorCode
enroll_disabled = 0x0014

abbrev pub key_revoked : ErrorCode
key_revoked = 0x0012

abbrev pub label_unavailable : ErrorCode
label_unavailable = 0x0020

abbrev pub label_forbidden : ErrorCode
label_forbidden = 0x0021

abbrev pub label_invalid : ErrorCode
label_invalid = 0x0022

abbrev pub tunnel_limit_exceeded : ErrorCode
tunnel_limit_exceeded = 0x0023

abbrev pub http_not_available : ErrorCode
http_not_available = 0x0024

abbrev pub port_pool_exhausted : ErrorCode
port_pool_exhausted = 0x0025

abbrev pub resume_identity_mismatch : ErrorCode
resume_identity_mismatch = 0x0041

abbrev pub server_shutdown : ErrorCode
server_shutdown = 0x00f0

abbrev pub internal_error : ErrorCode
internal_error = 0x00f1
