-- ===== src/Broker/Steady.antt =====
-- The broker of src/broker/broker_class.cpp once its services are available: what each handler of
-- `step` needs to come back, and how it lasts.
pub mod Registering
pub mod Replies
pub mod Heartbeats
pub mod Tally
pub mod Accounts
pub mod Once
pub mod Timeouts
pub mod Sweeping
pub mod Rounds
pub mod Runs
pub mod Startup
pub mod Lifetime
use reliable_service_framewo.Prelude.{
  ℕ, suc, ◌+◌, ◌<◌, ◌≡◌, refl, ◌∙◌, Option, none, some, List, [], ◌∷◌, ◌++◌, length, All, All-map,
  All-get_elem?, get_elem?, Outcome, ok, ◌>>=◌, Returns, Returns-bind, arith, Option-cases, inl,
  inr,
}
use reliable_service_framewo.Wire.{ByteOrder}
use reliable_service_framewo.Database.{ServiceRecord, find}
use reliable_service_framewo.Broker.{Broker, Output, index_of}
use reliable_service_framewo.Broker.Step.{Handler}
use reliable_service_framewo.Broker.Step.Consistent.{IsConsistent}
use reliable_service_framewo.Broker.Ballots.Kept.{Kin, Kept, Kept-refl, Kept-trans}
use reliable_service_framewo.Broker.Ballots.View.{IsRunning, election_of, heard, heard-append}
use reliable_service_framewo.Broker.Ballots.Events.{IsKnown}

-- The services are numbered in the order of the list, from `i` on.
abbrev pub AreNumbered : ℕ → List ℕ → Type 0
AreNumbered i [] = Unit
AreNumbered i (s ∷ ss) = (s ≡ i) × AreNumbered (suc i) ss

-- The broker is running, its vectors match, the available services are known and stand in the order
-- of their types, from 0 on, and each has an entry for the losses of each copy.
pub record IsSteady (b : Broker) : Type 0 where
  pub running : IsRunning b
  pub consistent : IsConsistent b
  pub numbered : AreNumbered 0 b.available_services
  pub known : All (λ s. IsKnown (election_of b.db s)) b.available_services
  pub losses : (s : ℕ) (r : ServiceRecord) → find s b.db ≡ some r → length r.lost_pong ≡ b.nmr

pub known-some :
    (b : Broker) (s : ℕ)
    → IsKnown (election_of b.db s)
    → (r : ServiceRecord) × (find s b.db ≡ some r)
known-some b s known = elim (Option-cases (find s b.db)) [
  | inl missing ↦ absurd (rw missing at known)
  | inr there ↦ there
]

-- A service that is known stays known.
exists-Kin :
    (o o' : Option ServiceRecord)
    → Kin o o'
    → (r : ServiceRecord) → o ≡ some r
    → (r' : ServiceRecord) × (o' ≡ some r')
exists-Kin (some q) (some q') kin r e = (q', refl)
exists-Kin (some q) none kin r e = absurd kin
exists-Kin none o' kin r e = absurd (cc)

pub IsKnown-Kept :
    (b b' : Broker) (s : ℕ)
    → Kept b b'
    → IsKnown (election_of b.db s)
    → IsKnown (election_of b'.db s)
IsKnown-Kept b b' s kept known =
    let (r, found) = known-some b s known in
    let (r', found') = exists-Kin (find s b.db) (find s b'.db) (kept.kin s) r found in rw found' tt

losses-Kin :
    (n : ℕ) (o o' : Option ServiceRecord)
    → Kin o o'
    → ((r : ServiceRecord) → o ≡ some r → length r.lost_pong ≡ n)
    → (r' : ServiceRecord) → o' ≡ some r'
    → length r'.lost_pong ≡ n
losses-Kin n (some q) (some q') kin h r' e =
    let same : length r'.lost_pong ≡ length q'.lost_pong = cc in same ∙ kin ∙ h q refl
losses-Kin n none (some q') kin h r' e = absurd kin
losses-Kin n o none kin h r' e = absurd (cc)

pub IsSteady-Kept : (b b' : Broker) → IsSteady b → Kept b b' → IsRunning b' → IsSteady b'
IsSteady-Kept b b' h kept running = record {
  running = running;
  consistent = record {
    dealers_match = rw (kept.dealers, kept.available) h.consistent.dealers_match;
    timeouts_match = rw (kept.available) (kept.timeouts ∙ h.consistent.timeouts_match);
    nmr_match = rw (kept.nmr, kept.db_nmr) h.consistent.nmr_match;
  };
  numbered = rw (kept.available) h.numbered;
  known =
      rw (kept.available) (All-map b.available_services (λ s. IsKnown-Kept b b' s kept) h.known);
  losses = λ s r e.
      rw (kept.nmr) (losses-Kin b.nmr (find s b.db) (find s b'.db) (kept.kin s) (h.losses s) r e);
}

-- The broker that a handler leaves.
pub record Lasts (b b' : Broker) : Type 0 where
  pub kept : Kept b b'
  pub steady : IsSteady b'

abbrev pub LastsIn : Broker → Outcome (Broker × List Output) → Type 0
LastsIn b = Returns (λ p. Lasts b p.0)

pub Lasts-refl : (b : Broker) → IsSteady b → Lasts b b
Lasts-refl b h = record { kept = Kept-refl b; steady = h }

pub Lasts-intro : (b b' : Broker) → IsSteady b → Kept b b' → IsRunning b' → Lasts b b'
Lasts-intro b b' h kept running = record { kept = kept; steady = IsSteady-Kept b b' h kept running }

pub Lasts-trans : (b b' b'' : Broker) → Lasts b b' → Lasts b' b'' → Lasts b b''
Lasts-trans b b' b'' h k = record { kept = Kept-trans b b' b'' h.kept k.kept; steady = k.steady }

-- What a handler leaves that does nothing for the clients: the ballots stay, and no client is told
-- anything.
module _ (bo : ByteOrder) where
  abbrev pub Quiet : Broker → Broker × List Output → Type 0
  Quiet b p = Lasts b p.0 × (election_of (p.0.db) ≡ election_of b.db) × (heard bo (p.1) ≡ [])

  pub Quiet-refl : (b : Broker) → IsSteady b → Quiet b (b, [])
  unfolding heard
  Quiet-refl b h = (Lasts-refl b h, refl, refl)

  pub then-Quiet :
      (b : Broker) (m : Outcome (Broker × List Output)) (g : Handler)
      → Returns (Quiet b) m
      → ((b' : Broker) → Lasts b b' → Returns (Quiet b') (g b'))
      → Returns
          (Quiet b)
          (m >>= λ first. g first.0 >>= λ second. ok (second.0, first.1 ++ second.1))
  then-Quiet b m g km kg = Returns-bind (Quiet b) (Quiet b) m _ km λ first (lasts, same, told).
      Returns-bind (Quiet (first.0)) (Quiet b) (g first.0) _ (kg first.0 lasts)
        λ second (lasts', same', told'). (
          Lasts-trans b first.0 second.0 lasts lasts',
          same' ∙ same,
          heard-append bo first.1 second.1 ∙ rw (told, told') refl,
        )

below-numbered :
    (i s : ℕ) (ss : List ℕ) → AreNumbered i ss → index_of s ss < length ss → s < i + length ss
unfolding index_of
below-numbered i s [] numbered lt = absurd (omega arith)
below-numbered i s (x ∷ ss) (e, numbered) lt =
    ground (arith, e, below-numbered (suc i) s ss numbered)

-- The known services are those that are available.
pub known_below :
    (b : Broker) (s : ℕ) (r : ServiceRecord)
    → IsSteady b
    → find s b.db ≡ some r
    → s < length b.available_services
known_below b s r h found = omega (
  arith,
  below-numbered 0 s b.available_services h.numbered
      (omega (arith, h.running.timed s r found, h.consistent.timeouts_match)),
)
