-- ===== src/Errors/Codes.antt =====
-- The standard codes and the classes that carry them.
use speaker_attributed_stt.Prelude.{◌≡◌, some, arith}
use speaker_attributed_stt.Errors.{Error, ErrorCode, error_code}

-- Two exception classes that report the same standard code are the same class.
pub error_code-injective :
    (e f : Error) (c : ErrorCode) → error_code e ≡ some c → error_code f ≡ some c → e ≡ f
unfolding error_code
error_code-injective e f c p q = ground arith
