-- ===== src/Broker/Ballots.antt =====
-- What the broker (src/broker/broker_class.cpp) promises, with no queues, copies or sockets: for each
-- known service a ballot of each client that waits for an answer, closed by the first majority.
pub mod Queue
pub mod View
pub mod Kept
pub mod Voting
pub mod Events
pub mod Asking
pub mod Refinement
pub mod Late
use mathlib.Core.Path.{subst}
use reliable_service_framewo.Prelude.{
  ℕ, ◌+◌, ◌/◌, ◌<◌, ◌≤◌, ◌≡◌, refl, Bool, true, false, Option, none, some, List, [], ◌∷◌, ltb, ◌==◌,
  if◌then◌else◌, length, All, arith, Bool-cases, inl, inr,
}
use reliable_service_framewo.Prelude.Int.{ℤ, ◌==ℤ◌, ==ℤ_iff}
use reliable_service_framewo.Wire.{IdFrame}
use reliable_service_framewo.Database.{append}
use reliable_service_framewo.Vote.Majority.{occurrences, IsOpen}

-- What a client reads from a response.
pub data Answer : Type 0 where
  available : ℤ → Answer
  not_available not_reliable : Answer

-- A change of a function at one number.
abbrev pub update {ℓ} : {A : Type ℓ} → (ℕ → A) → ℕ → A → ℕ → A
update f k a j = if k == j then a else f j

-- The values so far of each client that waits.
abbrev pub Ballot : Type 0
Ballot = ℕ → Option (List ℤ)

-- The ballot of each service that is known.
abbrev pub Election : Type 0
Election = ℕ → Option Ballot

-- The first of the values that more than half of `nmr` voted for.
unfoldable pub leader : ℕ → List ℤ → List ℤ → Option ℤ
leader nmr votes [] = none
leader nmr votes (x ∷ xs) =
    let rest = leader nmr votes xs in if ltb (nmr / 2) (occurrences x votes) then some x else rest

abbrev pub winner : ℕ → List ℤ → Option ℤ
winner nmr votes = leader nmr votes votes

-- A request of a client for a service.
unfoldable pub ask : ℕ → ℕ → IdFrame → Election → Election × List (IdFrame × Answer)
ask service client id_frame el = elim (el service) [
  | none ↦ (el, (id_frame, not_available) ∷ [])
  | some ballot ↦ (update el service (some (update ballot client (some []))), [])
]

pub ask_unknown :
    (service client : ℕ) (id_frame : IdFrame) (el : Election)
    → el service ≡ none
    → ask service client id_frame el ≡ (el, (id_frame, not_available) ∷ [])
unfolding ask
ask_unknown service client id_frame el unknown = rw (unknown, ask) refl

pub ask_known :
    (service client : ℕ) (id_frame : IdFrame) (el : Election) (ballot : Ballot)
    → el service ≡ some ballot
    → ask service client id_frame el
      ≡ (update el service (some (update ballot client (some []))), [])
unfolding ask
ask_known service client id_frame el ballot known = rw (known, ask) refl

-- The ballot closes with an answer.
abbrev pub close : ℕ → IdFrame → Answer → Ballot → Election → Election × List (IdFrame × Answer)
close service id_frame a ballot el =
    (update el service (some (update ballot id_frame.client_id none)), (id_frame, a) ∷ [])

-- What follows a vote.
unfoldable pub decide :
    ℕ → ℕ → IdFrame → List ℤ → Ballot → Election → Election × List (IdFrame × Answer)
decide nmr service id_frame votes ballot el = elim (winner nmr votes) [
  | some v ↦ close service id_frame (available v) ballot el
  | none ↦
      if length votes == nmr
      then close service id_frame not_reliable ballot el
      else (update el service (some (update ballot id_frame.client_id (some votes))), [])
]

-- A copy's vote in the ballot of a client; it is void when the client does not wait.
unfoldable pub cast : ℕ → ℕ → IdFrame → ℤ → Election → Election × List (IdFrame × Answer)
cast nmr service id_frame x el = elim (el service) [
  | none ↦ (el, [])
  | some ballot ↦ elim (ballot id_frame.client_id) [
    | none ↦ (el, [])
    | some votes ↦ decide nmr service id_frame (append votes x) ballot el
  ]
]

leader-more :
    (nmr : ℕ) (votes xs : List ℤ) (v : ℤ)
    → leader nmr votes xs ≡ some v
    → nmr / 2 < occurrences v votes
unfolding leader
leader-more nmr votes [] v e = cc
leader-more nmr votes (x ∷ xs) v e = ground (arith, leader-more nmr votes xs v)

pub winner-more :
    (nmr : ℕ) (votes : List ℤ) {v : ℤ} → winner nmr votes ≡ some v → nmr / 2 < occurrences v votes
winner-more nmr votes {v} e = leader-more nmr votes votes v e

pub leader-All {ℓ} :
    (P : ℤ → Type ℓ) (nmr : ℕ) (votes xs : List ℤ) {v : ℤ}
    → All P xs
    → leader nmr votes xs ≡ some v
    → P v
unfolding leader
leader-All P nmr votes [] h e = cc
leader-All P nmr votes (x ∷ xs) {v} h e = elim (Bool-cases (ltb (nmr / 2) (occurrences x votes))) [
  | inl more ↦ let same : some x ≡ some v = rw more at e in subst P (cc) h.0
  | inr less ↦ leader-All P nmr votes xs h.1 (rw less at e)
]

-- A value that does not lead is behind, and one that does not occur is behind anyway.
leader-none :
    (nmr : ℕ) (votes xs : List ℤ) (v : ℤ)
    → leader nmr votes xs ≡ none
    → 0 < occurrences v xs
    → occurrences v votes ≤ nmr / 2
unfolding leader
leader-none nmr votes [] v e h = absurd (omega arith)
leader-none nmr votes (x ∷ xs) v e h = ground (arith, ==ℤ_iff v x, leader-none nmr votes xs v)

pub winner-none : (nmr : ℕ) (votes : List ℤ) → winner nmr votes ≡ none → IsOpen nmr votes
winner-none nmr votes e v = elim (Bool-cases (ltb 0 (occurrences v votes))) [
  | inl occurs ↦ leader-none nmr votes votes v e (ground arith)
  | inr absent ↦ ground arith
]

module _ (nmr service : ℕ) (id_frame : IdFrame) (votes : List ℤ) (ballot : Ballot)
    (el : Election) where
  pub decide_won :
      {v : ℤ}
      → winner nmr votes ≡ some v
      → decide nmr service id_frame votes ballot el ≡ close service id_frame (available v) ballot el
  unfolding decide
  decide_won won = ground (arith, won)

  pub decide_all :
      winner nmr votes ≡ none
      → (length votes == nmr) ≡ true
      → decide nmr service id_frame votes ballot el ≡ close service id_frame not_reliable ballot el
  unfolding decide
  decide_all nobody all = rw (nobody, decide) (rw all refl)

  pub decide-some :
      winner nmr votes ≡ none
      → (length votes == nmr) ≡ false
      → decide nmr service id_frame votes ballot el
        ≡ (update el service (some (update ballot id_frame.client_id (some votes))), [])
  unfolding decide
  decide-some nobody missing = rw (nobody, decide) (rw missing refl)

module _ (nmr service : ℕ) (id_frame : IdFrame) (x : ℤ) (el : Election) (ballot : Ballot)
    (known : el service ≡ some ballot) where
  pub cast_asked :
      (votes : List ℤ)
      → ballot id_frame.client_id ≡ some votes
      → cast nmr service id_frame x el ≡ decide nmr service id_frame (append votes x) ballot el
  unfolding cast
  cast_asked votes waiting = rw (known, cast) (rw (waiting, cast) refl)

  pub cast_void : ballot id_frame.client_id ≡ none → cast nmr service id_frame x el ≡ (el, [])
  unfolding cast
  cast_void gone = rw (known, cast) (rw (gone, cast) refl)

pub cast_unknown :
    (nmr service : ℕ) (id_frame : IdFrame) (x : ℤ) (el : Election)
    → el service ≡ none
    → cast nmr service id_frame x el ≡ (el, [])
unfolding cast
cast_unknown nmr service id_frame x el unknown = rw (unknown, cast) refl
