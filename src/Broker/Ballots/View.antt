-- ===== src/Broker/Ballots/View.antt =====
-- The broker (src/broker/broker_class.cpp) seen as its ballots, and what the clients hear.
use mathlib.Core.Path.{fun_ext, subst}
use reliable_service_framewo.Prelude.{
  ℕ, ◌≤◌, ◌<◌, ◌≡◌, refl, sym, ap, ◌∙◌, zero, suc, Option, none, some, List, [], ◌∷◌, ◌++◌, ◌==◌,
  if◌then◌else◌, length, set, length-set, replicate, arith, Bool-cases, inl, inr,
}
use reliable_service_framewo.Prelude.Int.{
  ℤ, IsInt32, to_uint32, to_int32, to_uint32-lt, to_int32-to_uint32,
}
use reliable_service_framewo.Prelude.Map.{lookup-insert}
use reliable_service_framewo.Wire.{
  ByteOrder, IdFrame, Envelope, ResponseModule, ServiceModule, service_available,
  service_not_available, service_not_reliable,
}
use reliable_service_framewo.Time.{TimeSpec}
use reliable_service_framewo.Database.{Database, ServiceRecord, find, put}
use reliable_service_framewo.Broker.{
  Broker, Output, to_client, to_server, to_registrant, to_health_checker, index_of,
}
use reliable_service_framewo.Broker.Response.{response}
use reliable_service_framewo.Broker.Ballots.{
  Answer, available, not_available, not_reliable, Election, Ballot, update,
}
use reliable_service_framewo.Broker.Ballots.Queue.{ballot_of, IsFair}

abbrev pub ballot_if : Option ServiceRecord → Option Ballot
ballot_if none = none
ballot_if (some r) = some (ballot_of r.request_records)

abbrev pub election_of : Database → Election
election_of db s = ballot_if (find s db)

pub election_of-put :
    (service : ℕ) (r : ServiceRecord) (db : Database)
    → election_of (put service r db)
      ≡ update (election_of db) service (some (ballot_of r.request_records))
election_of-put service r db = fun_ext λ s.
    ap ballot_if (lookup-insert service s r db.services_db)
    ∙ elim (Bool-cases (service == s)) [ inl same ↦ rw same | inr other ↦ rw other ]

pub update_twice {ℓ} :
    {A : Type ℓ} (f : ℕ → A) (k : ℕ) (a a' : A) → update (update f k a) k a' ≡ update f k a'
update_twice f k a a' =
    fun_ext λ j. elim (Bool-cases (k == j)) [ inl same ↦ rw same | inr other ↦ rw other ]

pub update_same {ℓ} : {A : Type ℓ} (f : ℕ → A) (k : ℕ) (a : A) → f k ≡ a → update f k a ≡ f
update_same f k a e = fun_ext λ j. elim (Bool-cases (k == j)) [
  | inl same ↦ let q : k ≡ j = ground arith in rw (same, ← e, q)
  | inr other ↦ rw other
]

-- A write that leaves the pending requests alone.
pub election_of-put_same :
    (service : ℕ) (r r' : ServiceRecord) (db : Database)
    → find service db ≡ some r
    → r'.request_records ≡ r.request_records
    → election_of (put service r' db) ≡ election_of db
election_of-put_same service r r' db found same =
    election_of-put service r' db
    ∙ ap (λ rs. update (election_of db) service (some (ballot_of rs))) same
    ∙ update_same (election_of db) service (some (ballot_of r.request_records)) (ap ballot_if found)

-- Every known service has a dealer, a timeout and an entry for the pong of each copy, and its ballots
-- are fair.
pub record IsRunning (b : Broker) : Type 0 where
  pub some_copies : 0 < b.nmr
  pub few_copies : b.nmr ≤ 128
  pub dealt :
      (s : ℕ) (r : ServiceRecord) → find s b.db ≡ some r → r.dealer_skt_index < length b.dealers
  pub timed :
      (s : ℕ) (r : ServiceRecord)
      → find s b.db ≡ some r
      → index_of s b.available_services < length b.timeouts
  pub pongs : (s : ℕ) (r : ServiceRecord) → find s b.db ≡ some r → length r.new_pong ≡ b.nmr
  pub fair : (s : ℕ) (r : ServiceRecord) → find s b.db ≡ some r → IsFair b.nmr r.request_records

pub put-IsRunning :
    (b : Broker) (service : ℕ) (r r' : ServiceRecord)
    → IsRunning b
    → find service b.db ≡ some r
    → r'.dealer_skt_index ≡ r.dealer_skt_index
    → length r'.new_pong ≡ length r.new_pong
    → IsFair b.nmr r'.request_records
    → IsRunning (record b { db = put service r' b.db })
put-IsRunning b service r r' h found same pongs fair =
    let at_put = λ (s : ℕ). lookup-insert service s r' b.db.services_db in
    record {
      some_copies = h.some_copies;
      few_copies = h.few_copies;
      dealt = λ s q e. ground (arith, at_put s, h.dealt service r found, h.dealt s q);
      timed = λ s q e. ground (arith, at_put s, h.timed service r found, h.timed s q);
      pongs = λ s q e. ground (arith, pongs, at_put s, h.pongs service r found, h.pongs s q);
      fair = λ s q e. elim (Bool-cases (service == s)) [
        | inl hit ↦
            let stored : some r' ≡ some q = rw hit at (sym (at_put s) ∙ e) in
            let new : r' ≡ q = cc in
            subst (λ (p : ServiceRecord). IsFair b.nmr p.request_records) new fair
        | inr miss ↦ h.fair s q (rw miss at (sym (at_put s) ∙ e))
      ];
    }

pub set-IsRunning :
    (b : Broker) (i : ℕ) (t : TimeSpec)
    → IsRunning b
    → IsRunning (record b { timeouts = set b.timeouts i t })
set-IsRunning b i t h = record {
  some_copies = h.some_copies;
  few_copies = h.few_copies;
  dealt = h.dealt;
  timed = λ s q e. omega (arith, length-set b.timeouts i t, h.timed s q e);
  pongs = h.pongs;
  fair = h.fair;
}

module _ (bo : ByteOrder) where
  -- What a response says, as `request_service` reads it.
  abbrev pub answer_of : ResponseModule → Answer
  answer_of m =
      if bo.ntohl m.service_status == service_not_reliable
      then not_reliable
      else if bo.ntohl m.service_status == service_not_available
      then not_available
      else available (to_int32 (bo.ntohl m.result))

  -- The answers among the messages that the broker sends.
  unfoldable pub heard : List Output → List (IdFrame × Answer)
  heard [] = []
  heard (to_client e ∷ os) = (e.id_frame, answer_of e.data_frame) ∷ heard os
  heard (_ ∷ os) = heard os

  pub heard-append : (os os' : List Output) → heard (os ++ os') ≡ heard os ++ heard os'
  unfolding heard
  heard-append [] os' = refl
  heard-append (to_client e ∷ os) os' =
      ap (λ later. (e.id_frame, answer_of e.data_frame) ∷ later) (heard-append os os')
  heard-append (to_server i e ∷ os) os' = heard-append os os'
  heard-append (to_registrant f p ∷ os) os' = heard-append os os'
  heard-append (to_health_checker ∷ os) os' = heard-append os os'

  pub heard-replicate :
      (n i : ℕ) (e : Envelope ServiceModule) → heard (replicate n (to_server i e)) ≡ []
  unfolding heard
  heard-replicate zero i e = refl
  heard-replicate (suc n) i e = heard-replicate n i e

  pub heard_available :
      (id_frame : IdFrame) (v : ℤ)
      → IsInt32 v
      → heard (response bo id_frame service_available v ∷ []) ≡ (id_frame, available v) ∷ []
  unfolding heard
  heard_available id_frame v h =
      rw
        (
          bo.ntohl_htonl 0 (omega arith),
          bo.ntohl_htonl (to_uint32 v) (to_uint32-lt v h),
          to_int32-to_uint32 v h,
        )
        refl

  pub heard_not_reliable :
      (id_frame : IdFrame) (v : ℤ)
      → heard (response bo id_frame service_not_reliable v ∷ []) ≡ (id_frame, not_reliable) ∷ []
  unfolding heard
  heard_not_reliable id_frame v = rw (bo.ntohl_htonl 2 (omega arith)) refl

  pub heard_not_available :
      (id_frame : IdFrame) (uninit : ℕ)
      → heard (
          to_client (record {
            id_frame = id_frame;
            data_frame = record {
              service_status = bo.htonl service_not_available;
              result = uninit;
            };
          })
          ∷ [])
        ≡ (id_frame, not_available) ∷ []
  unfolding heard
  heard_not_available id_frame uninit = rw (bo.ntohl_htonl 1 (omega arith)) refl
