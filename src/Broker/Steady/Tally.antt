-- ===== src/Broker/Steady/Tally.antt =====
-- The books of the broker (src/broker/broker_class.cpp): how often a client waits, is answered, and
-- asks, on the ballots.
use reliable_service_framewo.Prelude.{
  ℕ, ◌+◌, ◌≡◌, refl, ◌≢◌, Option, none, some, List, [], ◌∷◌, ◌==◌, ==_refl, if◌then◌else◌, length,
  count_if, arith, Bool-cases, Option-cases, inl, inr,
}
use reliable_service_framewo.Prelude.Int.{ℤ}
use reliable_service_framewo.Wire.{IdFrame}
use reliable_service_framewo.Database.{append}
use reliable_service_framewo.Broker.Ballots
use reliable_service_framewo.Broker.Ballots.{
  Answer, Ballot, Election, update, winner, available, not_reliable, ask, cast, close, ask_unknown,
  ask_known, cast_asked, cast_void, cast_unknown, decide_won, decide_all, decide-some,
}
use reliable_service_framewo.Broker.Ballots.Events.{UnknownOrFree}

-- How many of the answers are the client's.
abbrev pub answers : ℕ → List (IdFrame × Answer) → ℕ
answers c told = count_if (λ a. a.0.client_id == c) told

-- Whether the client waits.
abbrev pub open_for : ℕ → Option Ballot → ℕ
open_for c none = 0
open_for c (some ballot) = elim (ballot c) [ none ↦ 0 | some votes ↦ 1 ]

-- What happens to the ballots at one service `s`, with `n c` requests of each client `c`.
pub record Counts (n : ℕ → ℕ) (s : ℕ) (el : Election) (out : Election × List (IdFrame × Answer))
    : Type 0 where
  pub others : (t : ℕ) → s ≢ t → out.0 t ≡ el t
  pub here : (c : ℕ) → answers c out.1 + open_for c (out.0 s) ≡ open_for c (el s) + n c

abbrev pub one_of : ℕ → ℕ → ℕ
one_of client c = if client == c then 1 else 0

module _ (s : ℕ) (f : IdFrame) (el : Election) where
  -- The only ballot that changes is the client's.
  update-Counts :
      (n : ℕ → ℕ) (ballot : Ballot) (votes : Option (List ℤ)) (told : List (IdFrame × Answer))
      → el s ≡ some ballot
      → ((c : ℕ)
          → answers c told + open_for c (some (update ballot f.client_id votes))
            ≡ open_for c (some ballot) + n c)
      → Counts n s el (update el s (some (update ballot f.client_id votes)), told)
  update-Counts n ballot votes told known here = record {
    others = λ t ne. ground arith;
    here = λ c. rw (==_refl s, known) (here c);
  }

  pub same-Counts : Counts (λ c. 0) s el (el, [])
  same-Counts = record { others = λ t ne. refl; here = λ c. omega arith }

  pub ask-Counts :
      UnknownOrFree (el s) f.client_id → Counts (one_of f.client_id) s el (ask s f.client_id f el)
  ask-Counts free = elim (Option-cases (el s)) [
    | inl unknown ↦
        rw (ask_unknown s f.client_id f el unknown)
          (record { others = λ t ne. refl; here = λ c. ground arith })
    | inr (ballot, known) ↦
        let closed : ballot f.client_id ≡ none = rw known at free in
        rw (ask_known s f.client_id f el ballot known)
          (update-Counts (one_of f.client_id) ballot (some []) [] known λ c. ground (arith, closed))
  ]

  module _ (nmr : ℕ) (x : ℤ) (ballot : Ballot) (votes : List ℤ) (known : el s ≡ some ballot)
      (asked : ballot f.client_id ≡ some votes) where
    close-Counts : (a : Answer) → Counts (λ c. 0) s el (close s f a ballot el)
    close-Counts a =
        update-Counts (λ c. 0) ballot none ((f, a) ∷ []) known λ c. ground (arith, asked)

    decide-Counts : (more : List ℤ) → Counts (λ c. 0) s el (Ballots.decide nmr s f more ballot el)
    decide-Counts more = elim (Option-cases (winner nmr more)) [
      | inr (v, won) ↦ rw (decide_won nmr s f more ballot el won) (close-Counts (available v))
      | inl nobody ↦ elim (Bool-cases (length more == nmr)) [
        | inl all ↦ rw (decide_all nmr s f more ballot el nobody all) (close-Counts not_reliable)
        | inr missing ↦
            rw (decide-some nmr s f more ballot el nobody missing)
              (update-Counts (λ c. 0) ballot (some more) [] known λ c. ground (arith, asked))
      ]
    ]

  pub cast-Counts : (nmr : ℕ) (x : ℤ) → Counts (λ c. 0) s el (cast nmr s f x el)
  cast-Counts nmr x = elim (Option-cases (el s)) [
    | inl unknown ↦ rw (cast_unknown nmr s f x el unknown) same-Counts
    | inr (ballot, known) ↦ elim (Option-cases (ballot f.client_id)) [
      | inl gone ↦ rw (cast_void nmr s f x el ballot known gone) same-Counts
      | inr (votes, asked) ↦
          rw (cast_asked nmr s f x el ballot known votes asked)
            (decide-Counts nmr x ballot votes known asked (append votes x))
    ]
  ]
