-- ===== src/Service/Laws.antt =====
-- What the services compute (src/server/service.cpp).
use reliable_service_framewo.Prelude.{◌≡◌, ok, arith}
use reliable_service_framewo.Prelude.Int.{ℤ, pos, negsuc, ◌+ℤ◌, IsInt32}
use reliable_service_framewo.Service.{increment, decrement}

-- Decrementing an `int32_t` that was incremented without overflow gives it back.
pub decrement-increment : (x y : ℤ) → IsInt32 x → increment x ≡ ok y → decrement y ≡ ok x
unfolding increment decrement ◌+ℤ◌
decrement-increment (pos n) y h e = ground arith
decrement-increment (negsuc n) y h e = ground arith
