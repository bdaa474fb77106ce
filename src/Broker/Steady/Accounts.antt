-- ===== src/Broker/Steady/Accounts.antt =====
-- The books of the broker (src/broker/broker_class.cpp) over a handler, on the queues.
use reliable_service_framewo.Prelude.{
  ℕ, suc, ◌+◌, ◌≤◌, ◌<◌, ◌≡◌, refl, sym, ap, ◌∙◌, ◌≢◌, Option, none, some, List, [], ◌∷◌, ◌++◌,
  length, Outcome, ok, ◌>>=◌, Returns, Returns-bind, arith, Bool-cases, Option-cases, inl, inr, ltb,
  ◌==◌,
}
use reliable_service_framewo.Wire.{ByteOrder, IdFrame}
use reliable_service_framewo.Database.{Database, ServiceRecord, find}
use reliable_service_framewo.Broker.{Broker, Output}
use reliable_service_framewo.Broker.Step.{Handler}
use reliable_service_framewo.Broker.Ballots.{Answer, Election}
use reliable_service_framewo.Broker.Ballots.Queue.{waits}
use reliable_service_framewo.Broker.Ballots.View.{election_of, IsRunning, heard, heard-append}
use reliable_service_framewo.Broker.Ballots.Voting.{Refines}
use reliable_service_framewo.Broker.Steady.{
  AreNumbered, IsSteady, Lasts, Lasts-intro, Lasts-trans, Quiet, known_below,
}
use reliable_service_framewo.Broker.Steady.Tally.{Counts, answers, open_for}

module _ (c : ℕ) where
  abbrev pub waits_in : Option ServiceRecord → ℕ
  waits_in none = 0
  waits_in (some r) = waits r.request_records c

  -- For how many of the services the client waits.
  abbrev pub waits_for : Database → List ℕ → ℕ
  waits_for db [] = 0
  waits_for db (s ∷ ss) = waits_in (find s db) + waits_for db ss

  -- A client waits where its ballot is open.
  waits_in-open :
      (b : Broker) (s : ℕ) → IsRunning b → waits_in (find s b.db) ≡ open_for c (election_of b.db s)
  waits_in-open b s running = elim (Option-cases (find s b.db)) [
    | inl missing ↦ rw missing refl
    | inr (r, found) ↦ rw found (ground (arith, (running.fair s r found).once c))
  ]

  module _ (db db' : Database) where
    waits_for-same :
        (i : ℕ) (ss : List ℕ)
        → AreNumbered i ss
        → ((t : ℕ) → i ≤ t → t < i + length ss → waits_in (find t db') ≡ waits_in (find t db))
        → waits_for db' ss ≡ waits_for db ss
    waits_for-same i [] numbered same = refl
    waits_for-same i (s ∷ ss) (e, numbered) same = omega (
      arith,
      same s (omega (arith, e)) (omega (arith, e)),
      waits_for-same (suc i) ss numbered (λ t le lt. same t (omega arith) (omega arith)),
    )

    -- A change at one service.
    waits_for-one :
        (i s k m : ℕ) (ss : List ℕ)
        → AreNumbered i ss
        → i ≤ s
        → s < i + length ss
        → ((t : ℕ) → s ≢ t → waits_in (find t db') ≡ waits_in (find t db))
        → k + waits_in (find s db') ≡ waits_in (find s db) + m
        → k + waits_for db' ss ≡ waits_for db ss + m
    waits_for-one i s k m [] numbered le lt others here = absurd (omega arith)
    waits_for-one i s k m (x ∷ ss) (e, numbered) le lt others here = elim (Bool-cases (x == s)) [
      | inl hit ↦
          let same : x ≡ s = ground arith in
          let later =
            waits_for-same (suc i) ss numbered λ t le lt. others t (omega (arith, same, e)) in
          rw same (omega (arith, later))
      | inr miss ↦
          let later =
            waits_for-one (suc i) s k m ss numbered (ground arith) (ground arith) others here in
          omega (arith, later, others x (ground arith))
    ]

pub answers-append :
    (c : ℕ) (told told' : List (IdFrame × Answer))
    → answers c (told ++ told') ≡ answers c told + answers c told'
answers-append c [] told' = omega arith
answers-append c (a ∷ told) told' = ground (arith, answers-append c told told')

abbrev pub pending : ℕ → Broker → ℕ
pending c b = waits_for c b.db b.available_services

module _ (bo : ByteOrder) where
  -- What a handler leaves that `n c` requests of each client `c` have come to: each answer and each
  -- request that is pending is accounted for.
  abbrev pub Tallied : (ℕ → ℕ) → Broker → Broker × List Output → Type 0
  Tallied n b p =
      Lasts b p.0 × ((c : ℕ) → answers c (heard bo (p.1)) + pending c p.0 ≡ pending c b + n c)

  pub Quiet-Tallied :
      (b : Broker) (p : Broker × List Output) → IsSteady b → Quiet bo b p → Tallied (λ c. 0) b p
  Quiet-Tallied b p h (lasts, same, told) = (
    lasts,
    λ c.
        let kept : waits_for c p.0.db p.0.available_services
            ≡ waits_for c b.db p.0.available_services =
          waits_for-same c b.db (p.0.db) 0 p.0.available_services lasts.steady.numbered λ t le lt.
            waits_in-open c p.0 t lasts.steady.running
            ∙ ap (λ (el : Election). open_for c (el t)) same
            ∙ sym (waits_in-open c b t h.running) in
        rw told (omega (arith, kept, ap (waits_for c b.db) lasts.kept.available)),
  )

  module _ (b : Broker) (m : Outcome (Broker × List Output))
      (spec : Election × List (IdFrame × Answer)) (n : ℕ → ℕ) (s : ℕ) (h : IsSteady b)
      (refines : Refines bo b m spec) (counts : Counts n s (election_of b.db) spec) where
    abbrev next : Broker
    next = refines.next

    lasting : Lasts b next
    lasting = Lasts-intro b next h refines.kept refines.running

    others_wait : (c t : ℕ) → s ≢ t → waits_in c (find t next.db) ≡ waits_in c (find t b.db)
    others_wait c t ne =
        waits_in-open c next t refines.running
        ∙ ap (λ (el : Election). open_for c (el t)) refines.seen
        ∙ ap (open_for c) (counts.others t ne)
        ∙ sym (waits_in-open c b t h.running)

    here_wait :
        (c : ℕ)
        → answers c (heard bo refines.sent) + waits_in c (find s next.db)
          ≡ waits_in c (find s b.db) + n c
    here_wait c = omega (
      arith,
      ap (answers c) refines.told,
      waits_in-open c next s refines.running
          ∙ ap (λ (el : Election). open_for c (el s)) refines.seen,
      waits_in-open c b s h.running,
      counts.here c,
    )

    -- A service that is not available is not known.
    unknown_waits :
        (c : ℕ) (a : Broker)
        → IsSteady a
        → length a.available_services ≤ s
        → waits_in c (find s a.db) ≡ 0
    unknown_waits c a k above = elim (Option-cases (find s a.db)) [
      | inl missing ↦ rw missing refl
      | inr (r, found) ↦ absurd (omega (arith, known_below a s r k found))
    ]

    balanced :
        (c : ℕ)
        → answers c (heard bo refines.sent) + waits_for c next.db b.available_services
          ≡ waits_for c b.db b.available_services + n c
    balanced c = elim (Bool-cases (ltb s (length b.available_services))) [
      | inl below ↦
          waits_for-one c b.db next.db 0 s (answers c (heard bo refines.sent)) (n c)
            b.available_services h.numbered (omega arith) (ground arith) (others_wait c)
            (here_wait c)
      | inr above ↦
          let same =
            waits_for-same c b.db next.db 0 b.available_services h.numbered
              λ t le lt. others_wait c t (ground arith) in
          omega (
            arith,
            same,
            here_wait c,
            unknown_waits c b h (ground arith),
            unknown_waits c next lasting.steady (ground (arith, ap length refines.kept.available)),
          )
    ]

    pub Refines-Tallied : Returns (Tallied n b) m
    Refines-Tallied =
        rw (refines.ran)
          (lasting, λ c. omega (arith, balanced c, ap (waits_for c next.db) refines.kept.available))

  pub Tallied-trans :
      (n k l : ℕ → ℕ) (b : Broker) (p q : Broker × List Output)
      → ((c : ℕ) → n c + k c ≡ l c)
      → Tallied n b p
      → Tallied k (p.0) q
      → Tallied l b (q.0, p.1 ++ q.1)
  Tallied-trans n k l b p q sum (lasts, books) (lasts', books') = (
    Lasts-trans b p.0 q.0 lasts lasts',
    λ c. omega (
      arith,
      books c,
      books' c,
      sum c,
      ap (answers c) (heard-append bo p.1 q.1),
      answers-append c (heard bo p.1) (heard bo q.1),
    ),
  )

  -- What a handler leaves with the property `Q`, and the next one behind it.
  pub then-Tallied :
      (n k l : ℕ → ℕ) (b : Broker) (Q : Broker × List Output → Type 0)
      (m : Outcome (Broker × List Output)) (g : Handler)
      → ((c : ℕ) → n c + k c ≡ l c)
      → ((p : Broker × List Output) → Q p → Tallied n b p)
      → Returns Q m
      → ((p : Broker × List Output) → Q p → Returns (Tallied k (p.0)) (g p.0))
      → Returns
          (Tallied l b)
          (m >>= λ first. g first.0 >>= λ second. ok (second.0, first.1 ++ second.1))
  then-Tallied n k l b Q m g sum tally km kg = Returns-bind Q (Tallied l b) m _ km λ first q.
      Returns-bind (Tallied k (first.0)) (Tallied l b) (g first.0) _ (kg first q)
        λ second books. Tallied-trans n k l b first second sum (tally first q) books
