-- ===== src/Service.antt =====
-- src/server/service.cpp: the bodies of the services. Overflow of an `int32_t` is undefined.
pub mod Laws
use reliable_service_framewo.Prelude.{
  ℕ, ◌-◌, ◌^◌, Bool, ◌&&◌, ◌==◌, if◌then◌else◌, Outcome, ok, exits, undefined,
}
use reliable_service_framewo.Prelude.Int.{ℤ, pos, negsuc, ◌+ℤ◌, leb_ℤ}
use reliable_service_framewo.Wire.{increment_t, decrement_t, multiply2_t, sum_t}

abbrev pub in_int32 : ℤ → Bool
in_int32 x = leb_ℤ (negsuc (2 ^ 31 - 1)) x && leb_ℤ x (pos (2 ^ 31 - 1))

abbrev pub checked : ℤ → Outcome ℤ
checked x = if in_int32 x then ok x else undefined

unfoldable pub increment : ℤ → Outcome ℤ
increment x = checked (x +ℤ pos 1)

unfoldable pub decrement : ℤ → Outcome ℤ
decrement x = checked (x +ℤ negsuc 0)

unfoldable pub multiply2 : ℤ → Outcome ℤ
multiply2 x = checked (x +ℤ x)

unfoldable pub sum : ℤ → ℤ → Outcome ℤ
sum x y = checked (x +ℤ y)

-- The case `SUM` leaves `body` unset, and the assertion reads it.
unfoldable pub get_service_body : ℕ → Outcome (ℤ → Outcome ℤ)
get_service_body service =
    if service == increment_t
    then ok increment
    else if service == decrement_t
    then ok decrement
    else if service == multiply2_t
    then ok multiply2
    else if service == sum_t
    then undefined
    else exits
