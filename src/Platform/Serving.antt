-- ===== src/Platform/Serving.antt =====
-- How a gRPC server answers: the check of the caller, the call of the service, and the status of its
-- error.
use seckill_mall.Base.{Result, ok, err}
use mathlib.Core.Bool.{Bool}
use seckill_mall.Platform.Grpc.{Code, GrpcError}

-- The codes of the order service that its clients pass on as they are.
unfoldable pub is_passed : Code → Bool
is_passed Code.invalid_argument = Bool.true
is_passed Code.not_found = Bool.true
is_passed Code.permission_denied = Bool.true
is_passed Code.resource_exhausted = Bool.true
is_passed Code.aborted = Bool.true
is_passed Code.failed_precondition = Bool.true
is_passed Code.unavailable = Bool.true
is_passed Code.deadline_exceeded = Bool.true
is_passed _ = Bool.false

unfoldable pub guarded :
    {S A : Type 0}
    → Result GrpcError (Unit {0})
    → (S → Result GrpcError A × S)
    → S
    → Result GrpcError A × S
guarded (err e) call s = (err e, s)
guarded (ok _) call s = call s

abbrev pub with_status : {E A : Type 0} → (E → GrpcError) → Result E A → Result GrpcError A
with_status status_of (ok a) = ok a
with_status status_of (err e) = err (status_of e)

unfoldable pub answered :
    {S E A : Type 0} → (E → GrpcError) → (S → Result E A × S) → S → Result GrpcError A × S
answered status_of call s = let (r, s') = call s in (with_status status_of r, s')
