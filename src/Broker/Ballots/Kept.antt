-- ===== src/Broker/Ballots/Kept.antt =====
-- What the handlers of requests and replies leave alone in the broker (src/broker/broker_class.cpp).
use reliable_service_framewo.Prelude.{
  ℕ, ◌≡◌, refl, ◌∙◌, Option, none, some, ◌==◌, length, set, length-set, arith, Bool-cases, inl, inr,
}
use reliable_service_framewo.Prelude.Map.{lookup-insert}
use reliable_service_framewo.Time.{TimeSpec}
use reliable_service_framewo.Database.{ServiceRecord, find, put}
use reliable_service_framewo.Broker.{Broker}

-- The entries of one service before and after: it stays known, with as many entries of `lost_pong`.
abbrev pub Kin : Option ServiceRecord → Option ServiceRecord → Type 0
Kin none none = Unit
Kin none (some r) = ⊥
Kin (some r) none = ⊥
Kin (some r) (some r') = length r'.lost_pong ≡ length r.lost_pong

pub record Kept (b b' : Broker) : Type 0 where
  pub nmr : b'.nmr ≡ b.nmr
  pub db_nmr : b'.db.nmr ≡ b.db.nmr
  pub available : b'.available_services ≡ b.available_services
  pub dealers : b'.dealers ≡ b.dealers
  pub timeouts : length b'.timeouts ≡ length b.timeouts
  pub kin : (s : ℕ) → Kin (find s b.db) (find s b'.db)

Kin-refl : (o : Option ServiceRecord) → Kin o o
Kin-refl none = tt
Kin-refl (some r) = refl

Kin-trans : (o p q : Option ServiceRecord) → Kin o p → Kin p q → Kin o q
Kin-trans none none q h k = k
Kin-trans (some r) (some r') (some r'') h k = k ∙ h
Kin-trans (some r) (some r') none h k = k
Kin-trans (some r) none q h k = absurd h
Kin-trans none (some r) q h k = absurd h

pub Kept-refl : (b : Broker) → Kept b b
Kept-refl b = record {
  nmr = refl;
  db_nmr = refl;
  available = refl;
  dealers = refl;
  timeouts = refl;
  kin = λ s. Kin-refl (find s b.db);
}

pub Kept-trans : (b b' b'' : Broker) → Kept b b' → Kept b' b'' → Kept b b''
Kept-trans b b' b'' h k = record {
  nmr = k.nmr ∙ h.nmr;
  db_nmr = k.db_nmr ∙ h.db_nmr;
  available = k.available ∙ h.available;
  dealers = k.dealers ∙ h.dealers;
  timeouts = k.timeouts ∙ h.timeouts;
  kin = λ s. Kin-trans (find s b.db) (find s b'.db) (find s b''.db) (h.kin s) (k.kin s);
}

pub put-Kept :
    (b : Broker) (service : ℕ) (r r' : ServiceRecord)
    → find service b.db ≡ some r
    → length r'.lost_pong ≡ length r.lost_pong
    → Kept b (record b { db = put service r' b.db })
put-Kept b service r r' found same = record {
  nmr = refl;
  db_nmr = refl;
  available = refl;
  dealers = refl;
  timeouts = refl;
  kin = λ s. rw (lookup-insert service s r' b.db.services_db) (elim (Bool-cases (service == s)) [
    | inl hit ↦ let here : service ≡ s = ground arith in rw hit (rw (← here) (rw found same))
    | inr miss ↦ rw miss (Kin-refl (find s b.db))
  ]);
}

pub set-Kept :
    (b : Broker) (i : ℕ) (t : TimeSpec) → Kept b (record b { timeouts = set b.timeouts i t })
set-Kept b i t = record {
  nmr = refl;
  db_nmr = refl;
  available = refl;
  dealers = refl;
  timeouts = length-set b.timeouts i t;
  kin = λ s. Kin-refl (find s b.db);
}
