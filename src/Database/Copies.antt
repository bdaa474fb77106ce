-- ===== src/Database/Copies.antt =====
-- src/broker/service_database_class.cpp: the loop of `check_pong` over the copies of one service.
use reliable_service_framewo.Prelude.{
  ℕ, zero, suc, ◌+◌, ◌%◌, ◌^◌, Bool, false, not, ◌&&◌, List, [], ◌∷◌, if◌then◌else◌, Outcome, ok,
  undefined, ◌>>=◌,
}
use reliable_service_framewo.Prelude.Int.{ℤ, pos, ◌+ℤ◌, ltb_ℤ, ◌==ℤ◌}
use reliable_service_framewo.Wire.{liveness}

-- The body for one copy: `new_pong[j]`, `lost_pong[j]`, and whether `unreliable_units` grows.
-- `lost_pong[j]++` is reached below `LIVENESS` only, so the `int8_t` does not overflow.
unfoldable pub check_copy : Bool → ℤ → Bool × ℤ × Bool
unfolding ◌+ℤ◌
check_copy new lost =
    if not new && ltb_ℤ lost (pos liveness)
    then (new, lost +ℤ pos 1, (lost +ℤ pos 1) ==ℤ pos liveness)
    else if new
    then (false, pos 0, false)
    else (new, lost, false)

-- `for (uint8_t j = 0; j < nmr; j++)` over both vectors, and `unreliable_units`. An index past the
-- end of a vector is undefined.
unfoldable pub check_copies : ℕ → List Bool → List ℤ → Outcome (List Bool × List ℤ × ℕ)
unfolding check_copy
check_copies zero new lost = ok (new, lost, 0)
check_copies (suc n) [] lost = undefined
check_copies (suc n) (p ∷ ps) [] = undefined
check_copies (suc n) (p ∷ ps) (l ∷ ls) = do
  rest ← check_copies n ps ls
  let c = check_copy p l
  ok (c.0 ∷ rest.0, c.1 ∷ rest.1, (if c.2 then (rest.2 + 1) % 2 ^ 8 else rest.2))
