-- ===== src/Broker/Ballots/Late.antt =====
-- Late replies: `push_result` (src/broker/service_database_class.cpp) goes by the client alone, and a
-- reply carries no number of a request.
use mathlib.Core.Path.{subst}
use reliable_service_framewo.Prelude.{
  ℕ, ◌+◌, ◌*◌, ◌^◌, ◌<◌, ◌≡◌, refl, ap, ◌∙◌, sym, true, Option, none, some, List, [], ◌∷◌, ◌++◌,
  ◌==◌, ok, arith,
}
use reliable_service_framewo.Prelude.Int.{ℤ, IsInt32, ==ℤ_iff}
use reliable_service_framewo.Wire.{ByteOrder, IdFrame, RequestModule}
use reliable_service_framewo.Time.{TimeSpec}
use reliable_service_framewo.Broker.{Broker, Output}
use reliable_service_framewo.Broker.Ballots.{
  Answer, available, Election, Ballot, update, leader, winner, ask, ask_known, cast, cast_asked,
  decide_won, decide-some,
}
use reliable_service_framewo.Broker.Ballots.View.{
  election_of, IsRunning, heard, update_twice, update_same,
}
use reliable_service_framewo.Broker.Ballots.Events.{
  Event, request, reply, elect, elect_all, IsKnown, IsPlausible, ArePlausible, handle_all,
}
use reliable_service_framewo.Broker.Ballots.Refinement.{handle_all_refines}

winner_one : (v : ℤ) → winner 3 (v ∷ []) ≡ none
unfolding leader
winner_one v = ground (arith, ==ℤ_iff v v)

winner_two : (v : ℤ) → winner 3 (v ∷ v ∷ []) ≡ some v
unfolding leader
winner_two v = ground (arith, ==ℤ_iff v v)

-- The ballots, where the client has, at the service, the one given.
module _ (service : ℕ) (id_frame : IdFrame) (el : Election) (ballot : Ballot) where
  abbrev with_votes : Option (List ℤ) → Election
  with_votes votes = update el service (some (update ballot id_frame.client_id votes))

  stored :
      (votes : Option (List ℤ))
      → with_votes votes service ≡ some (update ballot id_frame.client_id votes)
  stored votes = let hit : (service == service) ≡ true = ground arith in rw hit refl

  cast_own :
      (votes : Option (List ℤ)) → update ballot id_frame.client_id votes id_frame.client_id ≡ votes
  cast_own votes =
      let hit : (id_frame.client_id == id_frame.client_id) ≡ true = ground arith in rw hit refl

  again :
      (votes votes' : Option (List ℤ))
      → update
          (with_votes votes)
          service
          (some (update (update ballot id_frame.client_id votes) id_frame.client_id votes'))
        ≡ with_votes votes'
  again votes votes' =
      update_twice el service _ _
      ∙ ap (λ (c : Ballot). update el service (some c))
          (update_twice ballot id_frame.client_id votes votes')

  asked :
      (votes : Option (List ℤ))
      → ask service id_frame.client_id id_frame (with_votes votes) ≡ (with_votes (some []), [])
  asked votes =
      ask_known service id_frame.client_id id_frame (with_votes votes) _ (stored votes)
      ∙ ap (λ (e : Election). (e, [])) (again votes (some []))

  first_vote :
      (v : ℤ) → cast 3 service id_frame v (with_votes (some [])) ≡ (with_votes (some (v ∷ [])), [])
  first_vote v =
      cast_asked 3 service id_frame v (with_votes (some [])) _ (stored (some [])) []
        (cast_own (some []))
      ∙ decide-some 3 service id_frame (v ∷ []) _ (with_votes (some [])) (winner_one v) refl
      ∙ ap (λ (e : Election). (e, [])) (again (some []) (some (v ∷ [])))

  second_vote :
      (v : ℤ)
      → cast 3 service id_frame v (with_votes (some (v ∷ [])))
        ≡ (with_votes none, (id_frame, available v) ∷ [])
  second_vote v =
      cast_asked 3 service id_frame v (with_votes (some (v ∷ []))) _ (stored (some (v ∷ [])))
        (v ∷ []) (cast_own (some (v ∷ [])))
      ∙ decide_won 3 service id_frame (v ∷ v ∷ []) _ (with_votes (some (v ∷ []))) (winner_two v)
      ∙ ap (λ (e : Election). (e, (id_frame, available v) ∷ [])) (again (some (v ∷ [])) none)

module _ (bo : ByteOrder) where
  -- Events that may happen at the ballots, and what the clients hear.
  abbrev Plays : Election → List Event → List (IdFrame × Answer) → Type 0
  Plays el evs told = ArePlausible bo 3 el evs × ((elect_all bo 3 evs el).1 ≡ told)

  Plays-step :
      (ev : Event) (evs : List Event) (el el' : Election) (told told' : List (IdFrame × Answer))
      → IsPlausible bo 3 el ev
      → elect bo 3 ev el ≡ (el', told)
      → Plays el' evs told'
      → Plays el (ev ∷ evs) (told ++ told')
  unfolding elect_all
  Plays-step ev evs el el' told told' plausible e (later, heard_later) = (
    (plausible, rw e later),
    ap (λ p. p.1 ++ (elect_all bo 3 evs p.0).1) e ∙ ap (◌++◌ told) heard_later,
  )

  module _ (service : ℕ) (id_frame : IdFrame) (times : ℕ → TimeSpec) (uninit : ℕ → ℕ)
      (unset : ℕ → ℤ) where
    -- Requests of the client, and replies to it.
    abbrev asking : ℕ → RequestModule → Event
    asking n m =
        request (record { id_frame = id_frame; data_frame = m }) (times (2 * n)) (times (2 * n + 1))
          (uninit n)

    abbrev replying : ℕ → ℕ → ℤ → Event
    replying n id x = reply id_frame service id x (unset n)

    -- A request, and two equal replies.
    abbrev calling : RequestModule → ℕ → ℕ → ℕ → ℕ → ℤ → List Event → List Event
    calling m n k id id' v later = asking n m ∷ replying k id v ∷ replying (k + 1) id' v ∷ later

    -- Two copies answer the first request with `v`. The third replies late, with `w`, and once more to
    -- the second request.
    abbrev pub late_reply : RequestModule → RequestModule → ℕ → ℕ → ℕ → ℤ → ℤ → List Event
    late_reply m m' first second faulty v w =
        asking 0 m
        ∷ replying 0 first v
        ∷ replying 1 second v
        ∷ asking 1 m'
        ∷ replying 2 faulty w
        ∷ replying 3 faulty w
        ∷ []

    module _ (el : Election) (ballot : Ballot) (hs : service < 2 ^ 32) where
      abbrev at_vote : Option (List ℤ) → Election
      at_vote = with_votes service id_frame el ballot

      one_call :
          (m : RequestModule) (n k id id' : ℕ) (v : ℤ) (evs : List Event)
          (told : List (IdFrame × Answer))
          → IsInt32 v
          → bo.ntohl m.service ≡ service
          → Plays (at_vote none) evs told
          → Plays (at_vote none) (calling m n k id id' v evs) ((id_frame, available v) ∷ told)
      unfolding elect
      one_call m n k id id' v evs told hv its later =
          let known : (votes : Option (List ℤ)) → IsKnown (at_vote votes service) =
            λ votes. rw (stored service id_frame el ballot votes) tt in
          Plays-step (asking n m) _ (at_vote none) (at_vote (some [])) [] _
            (rw (its, stored service id_frame el ballot none)
              (cast_own service id_frame el ballot none))
            (rw its (asked service id_frame el ballot none))
            (Plays-step (replying k id v) _ (at_vote (some [])) (at_vote (some (v ∷ []))) [] _
              (hs, hv, known (some [])) (first_vote service id_frame el ballot v)
              (Plays-step (replying (k + 1) id' v) evs (at_vote (some (v ∷ []))) (at_vote none)
                ((id_frame, available v) ∷ []) told (hs, hv, known (some (v ∷ [])))
                (second_vote service id_frame el ballot v) later))

-- At a running broker (every known service has a dealer, a timeout and `nmr` entries for pongs, no
-- client waits twice for a service, who waits has fewer than `nmr` results, `int32_t` values with
-- no majority among them, and `nmr` is from 1 to 128), where `nmr` is three, a client with no
-- pending request for a known service (a 32-bit number) asks twice. Two replies to the first
-- request carry one `int32_t` value, and a third copy replies late, behind the second request:
-- this reply, and that of the same copy to the second request, both with one `int32_t` value, are
-- enough for an answer with that value, without a reply of another copy to the second request.
pub late_reply_decides :
    (bo : ByteOrder) (b : Broker) (service first second faulty : ℕ) (id_frame : IdFrame)
    (m m' : RequestModule) (times : ℕ → TimeSpec) (uninit : ℕ → ℕ) (unset : ℕ → ℤ) (v w : ℤ)
    (ballot : Ballot)
    → IsRunning b
    → b.nmr ≡ 3
    → service < 2 ^ 32
    → IsInt32 v
    → IsInt32 w
    → (bo.ntohl m.service ≡ service) × (bo.ntohl m'.service ≡ service)
    → election_of b.db service ≡ some ballot
    → ballot id_frame.client_id ≡ none
    → (b' : Broker) × (sent : List Output) × (handle_all bo
          (late_reply bo service id_frame times uninit unset m m' first second faulty v w)
          b
        ≡ ok (b', sent))
      × (heard bo sent ≡ (id_frame, available v) ∷ (id_frame, available w) ∷ [])
unfolding elect_all
late_reply_decides bo b service first second faulty id_frame m m' times uninit unset v w ballot
      running three hs hv hw (its, its') known free =
    let el = election_of b.db in
    let same : with_votes service id_frame el ballot none ≡ el =
      ap (λ (c : Ballot). update el service (some c))
        (update_same ballot id_frame.client_id none free)
      ∙ update_same el service (some ballot) known in
    let evs = late_reply bo service id_frame times uninit unset m m' first second faulty v w in
    let again = calling bo service id_frame times uninit unset m' 1 2 faulty faulty w [] in
    let (plausible, told) =
      subst
        (λ (e : Election). Plays bo e evs ((id_frame, available v) ∷ (id_frame, available w) ∷ []))
        same
        (one_call bo service id_frame times uninit unset el ballot hs m 0 0 first second v again _
          hv its
          (one_call bo service id_frame times uninit unset el ballot hs m' 1 2 faulty faulty w [] []
            hw its' (tt, refl))) in
    let (b', sent, ran, seen, heard_all, running') =
      handle_all_refines bo evs b running
        (subst (λ (n : ℕ). ArePlausible bo n el evs) (sym three) plausible) in
    (b', sent, ran, heard_all ∙ ap (λ n. (elect_all bo n evs el).1) three ∙ told)
