-- ===== src/Tests/OfVote.antt =====
-- src/broker/broker_class.cpp: votes of three copies.
use reliable_service_framewo.Prelude.{◌≡◌, ok, List, [], ◌∷◌, arith}
use reliable_service_framewo.Prelude.Int.{ℤ, pos, negsuc}
use reliable_service_framewo.Vote.{vote}
use reliable_service_framewo.Vote.Majority.{Verdict, vote-Verdict}

abbrev one_faulty : List ℤ
one_faulty = pos 42 ∷ negsuc 0 ∷ pos 42 ∷ []

vote-Verdict_example :
    (p : ℤ × ℤ) × (vote 3 one_faulty (pos 0) ≡ ok p) × Verdict 3 one_faulty (pos 0) p
vote-Verdict_example = vote-Verdict 3 one_faulty (pos 0) (omega arith)
