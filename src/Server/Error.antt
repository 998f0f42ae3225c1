-- ===== src/Server/Error.antt =====
-- crates/krot-server/src/error.rs: the errors that the modelled parts return.
use krot.Base.{Bytes}
use krot.Transport.Frame.{TransportError}

pub data ServerError : Type 0 where
  keys admin_token protocol : Bytes → ServerError
  port_pool_exhausted io : ServerError
  transport : TransportError → ServerError
