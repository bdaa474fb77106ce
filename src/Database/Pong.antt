-- ===== src/Database/Pong.antt =====
-- `register_pong` and `check_pong` (src/broker/service_database_class.cpp): how a copy is counted.
use reliable_service_framewo.Prelude.{
  ℕ, zero, suc, ◌+◌, ◌-◌, ◌≤◌, ◌<◌, ◌≡◌, refl, Bool, true, false, some, ◌%◌, ◌^◌, List, [], ◌∷◌,
  length, map, leb, Returns, Returns-bind, count_if, count_if-le-length, replicate, if◌then◌else◌,
  not, ◌&&◌, ◌==◌, ok, arith,
}
use reliable_service_framewo.Prelude.Int.{ℤ, pos, negsuc, ◌+ℤ◌, ◌≤ℤ◌}
use reliable_service_framewo.Database.{ServiceRecord, Database, find, put, sub_u8, check_pong}
use reliable_service_framewo.Wire.{liveness}
use reliable_service_framewo.Database.Copies.{check_copy, check_copies}

-- The values that `lost_pong` takes: -1 before the first round, then up to `LIVENESS`.
abbrev pub IsLoss : ℤ → Type 0
IsLoss l = (negsuc 0 ≤ℤ l) × (l ≤ℤ pos liveness)

-- One copy over several rounds, given whether it answers before the check of each, which sets its
-- `new_pong`: `new_pong` and `lost_pong` at the end, and how often it was counted as unreliable.
unfoldable pub rounds : List Bool → Bool → ℤ → Bool × ℤ × ℕ
rounds [] new lost = (new, lost, 0)
rounds (answered ∷ later) new lost =
    let (new', lost', flagged) = check_copy (if answered then true else new) lost in
    let (end, loss, n) = rounds later new' lost' in (end, loss, if flagged then suc n else n)

-- How many further rounds of silence make the copy unreliable.
abbrev pub remaining : ℤ → ℕ
remaining (pos n) = liveness - n
remaining (negsuc n) = liveness + suc n

rounds_stopped : (k : ℕ) → (rounds (replicate k false) false (pos 3)).2 ≡ 0
unfolding rounds check_copy
rounds_stopped zero = refl
rounds_stopped (suc k) = rounds_stopped k

-- A copy with no pong to count, whose `lost_pong` is at least -1 and below the limit, and that
-- stays silent, is counted as unreliable exactly once, in the round in which its losses reach the
-- limit.
pub rounds_silent :
    (k : ℕ) (lost : ℤ)
    → IsLoss lost
    → 0 < remaining lost
    → (rounds (replicate k false) false lost).2 ≡ (if leb (remaining lost) k then 1 else 0)
unfolding rounds check_copy ◌+ℤ◌
rounds_silent zero lost h some_left = ground arith
rounds_silent (suc k) (pos zero) h some_left = ground (arith, rounds_silent k (pos 1))
rounds_silent (suc k) (pos (suc zero)) h some_left = ground (arith, rounds_silent k (pos 2))
rounds_silent (suc k) (pos (suc (suc zero))) h some_left = ground (arith, rounds_stopped k)
rounds_silent (suc k) (pos (suc (suc (suc n)))) h some_left = absurd (omega arith)
rounds_silent (suc k) (negsuc zero) h some_left = ground (arith, rounds_silent k (pos 0))
rounds_silent (suc k) (negsuc (suc n)) h some_left = absurd (omega arith)

-- `n` times three silent rounds and one with an answer.
abbrev pub flapping : ℕ → List Bool
flapping zero = []
flapping (suc n) = false ∷ false ∷ false ∷ true ∷ flapping n

-- A copy that falls silent for three rounds and answers in the next is counted as unreliable once
-- in every such episode, and is ready for the next pong, with no loss, behind each.
pub rounds-flapping : (n : ℕ) → rounds (flapping n) false (pos 0) ≡ (false, pos 0, n)
unfolding rounds check_copy ◌+ℤ◌
rounds-flapping zero = refl
rounds-flapping (suc n) = rw (rounds-flapping n)

-- The losses of a copy that is silent in a round: one more, up to three.
abbrev pub one_more_loss : ℤ → ℤ
one_more_loss (pos n) = if leb 3 n then pos n else pos (n + 1)
one_more_loss (negsuc zero) = pos 0
one_more_loss (negsuc (suc n)) = negsuc n

abbrev pub two_lost : ℤ → Bool
two_lost (pos n) = n == 2
two_lost (negsuc n) = false

-- The losses behind a round of a copy, given whether it answered, and those before.
abbrev pub losses_behind : Bool × ℤ → ℤ
losses_behind (answered, lost) = if answered then pos 0 else one_more_loss lost

-- A copy that has lost two pongs, and does not answer.
abbrev pub is_third_loss : Bool × ℤ → Bool
is_third_loss (answered, lost) = not answered && two_lost lost

-- A copy is ready for the next pong, has no loss when it answered and one more (up to three) when it
-- did not, and is unreliable from the third loss in a row.
check_copy_lem : (c : Bool × ℤ) → check_copy c.0 c.1 ≡ (false, losses_behind c, is_third_loss c)
unfolding check_copy ◌+ℤ◌
check_copy_lem (true, lost) = ground arith
check_copy_lem (false, pos n) = ground arith
check_copy_lem (false, negsuc zero) = refl
check_copy_lem (false, negsuc (suc n)) = ground arith

-- The loop ends within bounds, and treats each copy by itself.
check_copies_lem :
    (copies : List (Bool × ℤ))
    → length copies ≤ 255
    → check_copies (length copies) (map (λ c. c.0) copies) (map (λ c. c.1) copies)
      ≡ ok (map (λ c. false) copies, map losses_behind copies, count_if is_third_loss copies)
unfolding check_copies
check_copies_lem [] short = refl
check_copies_lem (c ∷ copies) short =
    rw (check_copies_lem copies (omega arith), check_copy_lem c)
      (ground (arith, count_if-le-length is_third_loss copies))

-- What `check_pong` makes of the record, given the copies and what is left of the two numbers.
abbrev pub after_check : List (Bool × ℤ) → ℕ → ℕ → ServiceRecord → ServiceRecord
after_check copies reliable registered r = record r {
  new_pong = map (λ c. false) copies;
  lost_pong = map losses_behind copies;
  num_copies_reliable = reliable;
  num_copies_registered = registered;
  seq_id_ping = (r.seq_id_ping + 1) % 2 ^ 32;
}

-- How many copies become unreliable in this round.
abbrev pub newly_lost : List (Bool × ℤ) → ℕ
newly_lost = count_if is_third_loss

-- The entries of `new_pong` and of `lost_pong` of the service are those of the copies.
pub record Holds (service : ℕ) (r : ServiceRecord) (copies : List (Bool × ℤ)) (db : Database)
    : Type 0 where
  pub found : find service db ≡ some r
  pub pongs : r.new_pong ≡ map (λ c. c.0) copies
  pub losses : r.lost_pong ≡ map (λ c. c.1) copies
  pub all : length copies ≡ db.nmr

check_pong_copies :
    (service : ℕ) (db : Database) (r : ServiceRecord) (copies : List (Bool × ℤ))
    → Holds service r copies db
    → db.nmr ≤ 255
    → check_pong service db
      ≡ ok (
          put service
            (after_check copies
              (sub_u8 r.num_copies_reliable (newly_lost copies))
              (sub_u8 r.num_copies_registered (newly_lost copies))
              r)
            db)
unfolding check_pong
check_pong_copies service db r copies h short =
    rw (h.found, h.pongs, h.losses, ← h.all, check_copies_lem copies (omega (arith, h.all))) refl

-- With an entry of `new_pong` and of `lost_pong` for each of at most 255 copies, `check_pong`
-- makes every copy ready for its next pong, sets the losses of a copy that answered to none, and
-- of a silent one to one more, up to three, takes the copies that are silent and had lost two
-- pongs from the numbers of reliable and of registered copies, as long as there are that many, and
-- numbers the next ping one higher.
pub check_pong_lem :
    (service : ℕ) (db : Database) (r : ServiceRecord) (copies : List (Bool × ℤ))
    → Holds service r copies db
    → db.nmr ≤ 255
    → (newly_lost copies ≤ r.num_copies_reliable) × (r.num_copies_reliable ≤ 255)
    → (newly_lost copies ≤ r.num_copies_registered) × (r.num_copies_registered ≤ 255)
    → check_pong service db
      ≡ ok (
          put service
            (after_check copies
              (r.num_copies_reliable - newly_lost copies)
              (r.num_copies_registered - newly_lost copies)
              r)
            db)
check_pong_lem service db r copies h short reliable registered =
    let lost = newly_lost copies in
    let fewer : sub_u8 r.num_copies_reliable lost ≡ r.num_copies_reliable - lost = omega arith in
    let fewer' : sub_u8 r.num_copies_registered lost ≡ r.num_copies_registered - lost =
      omega arith in
    rw (check_pong_copies service db r copies h short, fewer, fewer') refl

-- The number of reliable copies, a byte, wraps around when more copies (of at most 255) become
-- unreliable in a round than are counted as reliable.
pub check_pong_wraps :
    (service : ℕ) (db : Database) (r : ServiceRecord) (copies : List (Bool × ℤ))
    → Holds service r copies db
    → db.nmr ≤ 255
    → r.num_copies_reliable < newly_lost copies
    → (r' : ServiceRecord) × (check_pong service db ≡ ok (put service r' db))
      × (r'.num_copies_reliable ≡ 256 + r.num_copies_reliable - newly_lost copies)
check_pong_wraps service db r copies h short more =
    let bound : newly_lost copies ≤ length copies = count_if-le-length is_third_loss copies in
    (
      after_check copies (sub_u8 r.num_copies_reliable (newly_lost copies))
          (sub_u8 r.num_copies_registered (newly_lost copies)) r,
      check_pong_copies service db r copies h short,
      omega (arith, bound, h.all),
    )

-- The loop ends within bounds, and no entry is gained or lost.
pub check_copies-length :
    (n : ℕ) (new : List Bool) (lost : List ℤ)
    → length new ≡ n
    → length lost ≡ n
    → Returns (λ c. (length (c.0) ≡ n) × (length (c.1) ≡ n)) (check_copies n new lost)
unfolding check_copies
check_copies-length zero new lost h k = (h, k)
check_copies-length (suc n) [] lost h k = absurd (omega arith)
check_copies-length (suc n) (p ∷ ps) [] h k = absurd (omega arith)
check_copies-length (suc n) (p ∷ ps) (l ∷ ls) h k =
    Returns-bind (λ c. (length (c.0) ≡ n) × (length (c.1) ≡ n)) _ (check_copies n ps ls) _
      (check_copies-length n ps ls (omega arith) (omega arith))
      λ c lengths. (omega (arith, lengths.0), omega (arith, lengths.1))
