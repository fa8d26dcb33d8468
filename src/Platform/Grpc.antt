-- ===== src/Platform/Grpc.antt =====
-- google.golang.org/grpc: the codes and the errors that the servers and the clients exchange.
use seckill_mall.Base.{String, ◌<>◌}

pub data Code : Type 0 where
  ok canceled unknown invalid_argument deadline_exceeded not_found already_exists
        permission_denied :
      Code
  resource_exhausted failed_precondition aborted internal unavailable unauthenticated : Code

-- A status: its code and its message.
pub record GrpcError : Type 0 where
  pub code : Code
  pub message : String

-- status.Error
abbrev pub status : Code → String → GrpcError
status code message = record { code = code; message = message }

-- fmt.Errorf with `%w`: another text, and the code of the error that it wraps.
abbrev pub wrapped : (GrpcError → String) → String → GrpcError → GrpcError
wrapped text prefix e = record { code = e.code; message = prefix <> (": " <> text e) }
