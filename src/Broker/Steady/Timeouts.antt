-- ===== src/Broker/Steady/Timeouts.antt =====
-- The loop of `check_pending_requests` (src/broker/broker_class.cpp) over the pending requests of one
-- service of a broker that is steady.
use mathlib.Core.List.{append_assoc, append-nil}
use reliable_service_framewo.Prelude.{
  ℕ, ◌≤◌, ◌≡◌, refl, sym, ap, ◌∙◌, ◌≢◌, Bool, true, false, not, some, List, [], ◌∷◌, ◌++◌, map,
  length, filter_if, Outcome, ok, arith, Bool-cases, inl, inr,
}
use reliable_service_framewo.Prelude.Map.{lookup-insert, lookup-insert_self}
use reliable_service_framewo.Wire.{ByteOrder, IdFrame, service_not_reliable}
use reliable_service_framewo.Time.{TimeSpec, is_later}
use reliable_service_framewo.Database.{
  ServiceRecord, RequestRecord, find, put, delete_client, delete_request,
}
use reliable_service_framewo.Database.Queue.Delete.{delete_client-filter}
use reliable_service_framewo.Vote.Majority.{IsOpen, vote_open}
use reliable_service_framewo.Broker.{Broker}
use reliable_service_framewo.Broker.Response.{response}
use reliable_service_framewo.Broker.Pending.{Sweep, give_up, sweep_requests}
use reliable_service_framewo.Broker.Ballots.{Answer, not_reliable}
use reliable_service_framewo.Broker.Ballots.Queue.{votes_of, IsFair, delete-IsFair}
use reliable_service_framewo.Broker.Ballots.Kept.{put-Kept}
use reliable_service_framewo.Broker.Ballots.View.{
  put-IsRunning, heard, heard-append, heard_not_reliable,
}
use reliable_service_framewo.Broker.Steady.Once.{filter-once, results_of_client-once}
use reliable_service_framewo.Broker.Steady.{IsSteady, Lasts, Lasts-refl, Lasts-intro, Lasts-trans}

module _ (now : TimeSpec) where
  abbrev pub is_late : RequestRecord → Bool
  is_late q = is_later now q.timeout

  -- What the client of a request hears whose timeout has passed.
  abbrev pub refusal : RequestRecord → IdFrame × Answer
  refusal q = (record { lead = 0; client_id = q.client_id }, not_reliable)

  abbrev pub refusals : List RequestRecord → List (IdFrame × Answer)
  refusals rs = map refusal (filter_if is_late rs)

  abbrev pub in_time : List RequestRecord → List RequestRecord
  in_time rs = filter_if (λ q. not (is_late q)) rs

  pub in_time-late :
      (q : RequestRecord) (rs : List RequestRecord)
      → is_late q ≡ true
      → (in_time (q ∷ rs) ≡ in_time rs) × (refusals (q ∷ rs) ≡ refusal q ∷ refusals rs)
  in_time-late q rs late = (ground (arith, late), ground (arith, late))

  pub in_time-early :
      (q : RequestRecord) (rs : List RequestRecord)
      → is_late q ≡ false
      → (in_time (q ∷ rs) ≡ q ∷ in_time rs) × (refusals (q ∷ rs) ≡ refusals rs)
  in_time-early q rs early = (ground (arith, early), ground (arith, early))

module _ (bo : ByteOrder) (now : TimeSpec) where
  -- The run `m` from `s` comes back with the queue `rs` for the service `i`, and tells `told`.
  pub record Sweeps (i : ℕ) (r : ServiceRecord) (rs : List RequestRecord)
      (told : List (IdFrame × Answer)) (s : Sweep) (m : Outcome Sweep) : Type 0 where
    pub next : Sweep
    pub ran : m ≡ ok next
    pub lasts : Lasts s.broker next.broker
    pub here : find i next.broker.db ≡ some (record r { request_records = rs })
    pub others : (j : ℕ) → i ≢ j → find j next.broker.db ≡ find j s.broker.db
    pub tells : heard bo next.sent ≡ heard bo s.sent ++ told

  module _ (i : ℕ) (r : ServiceRecord) (done : List RequestRecord) (q : RequestRecord)
      (rs : List RequestRecord) (s : Sweep) (h : IsSteady s.broker)
      (found : find i s.broker.db ≡ some r) (queue : r.request_records ≡ done ++ q ∷ rs) where
    fair : IsFair s.broker.nmr (done ++ q ∷ rs)
    fair = rw queue at (h.running.fair i r found)

    own_results : votes_of (done ++ q ∷ rs) q.client_id ≡ q.results
    own_results =
        results_of_client-once q.client_id done q rs [] (ground arith) (fair.once q.client_id)

    short : length q.results ≤ 128
    short = omega (arith, fair.missing q.client_id, ap length own_results, h.running.few_copies)

    undecided : IsOpen s.broker.nmr q.results
    undecided v = rw own_results at (fair.undecided q.client_id v)

    abbrev left : ServiceRecord
    left = record r { request_records = done ++ rs }

    abbrev b_left : Broker
    b_left = record (s.broker) { db = put i left s.broker.db }

    removed : delete_client q.client_id r.request_records ≡ done ++ rs
    removed =
        ap (delete_client q.client_id) queue
        ∙ delete_client-filter q.client_id (done ++ q ∷ rs) (fair.once q.client_id)
        ∙ filter-once q.client_id done q rs (ground arith) (fair.once q.client_id)

    abbrev s_left : Sweep
    s_left = record {
      broker = b_left;
      result = s.result;
      sent = s.sent ++ response bo (refusal now q).0 service_not_reliable s.result ∷ [];
    }

    give_up_lem : give_up bo now i q s ≡ ok s_left
    unfolding give_up delete_request
    give_up_lem =
        rw (vote_open s.broker.nmr q.results s.result short undecided) (rw (found, removed) refl)

    left-IsFair : IsFair s.broker.nmr (done ++ rs)
    left-IsFair = rw removed at (
        delete-IsFair s.broker.nmr q.client_id r.request_records h.running.some_copies
          ((h.running.fair i r found).once q.client_id)
          λ d ne. (
            (h.running.fair i r found).once d,
            (h.running.fair i r found).missing d,
            (h.running.fair i r found).int32 d,
            (h.running.fair i r found).undecided d,
          ))

    left-Lasts : Lasts s.broker b_left
    left-Lasts =
        Lasts-intro s.broker b_left h (put-Kept s.broker i r left found refl)
          (put-IsRunning s.broker i r left h.running found refl refl left-IsFair)

    left_told : heard bo s_left.sent ≡ heard bo s.sent ++ refusal now q ∷ []
    left_told =
        heard-append bo s.sent _
        ∙ ap (◌++◌ (heard bo s.sent)) (heard_not_reliable bo (refusal now q).0 s.result)

  -- Of the requests that are left the loop deletes those whose timeout has passed, and refuses them.
  pub sweep_requests_lem :
      (i : ℕ) (r : ServiceRecord) (done rs : List RequestRecord) (s : Sweep)
      → IsSteady s.broker
      → find i s.broker.db ≡ some r
      → r.request_records ≡ done ++ rs
      → Sweeps i r (done ++ in_time now rs) (refusals now rs) s (sweep_requests bo now i rs s)
  unfolding sweep_requests
  sweep_requests_lem i r done [] s h found queue = record {
    next = s;
    ran = refl;
    lasts = Lasts-refl s.broker h;
    here = found ∙ ap (λ l. some (record r { request_records = l })) queue;
    others = λ j ne. refl;
    tells = sym (append-nil (heard bo s.sent));
  }
  sweep_requests_lem i r done (q ∷ rs) s h found queue = elim (Bool-cases (is_late now q)) [
    | inl late ↦
        let s1 = s_left i r done q rs s h found queue in
        let left' = left i r done q rs s h found queue in
        let lasts1 = left-Lasts i r done q rs s h found queue in
        let rest =
          sweep_requests_lem i left' done rs s1 lasts1.steady
            (lookup-insert_self i left' s.broker.db.services_db) refl in
        rw ((in_time-late now q rs late).0, (in_time-late now q rs late).1, late)
          (record {
            next = rest.next;
            ran = rw (give_up_lem i r done q rs s h found queue) (rest.ran);
            lasts = Lasts-trans s.broker s1.broker rest.next.broker lasts1 rest.lasts;
            here = rest.here;
            others = λ j ne.
                rest.others j ne ∙ lookup-insert i j left' s.broker.db.services_db ∙ ground arith;
            tells =
                rest.tells
                ∙ ap (λ l. l ++ refusals now rs) (left_told i r done q rs s h found queue)
                ∙ append_assoc (heard bo s.sent) (refusal now q ∷ []) (refusals now rs);
          })
    | inr early ↦
        let rest =
          sweep_requests_lem i r (done ++ q ∷ []) rs s h found
            (queue ∙ sym (append_assoc done (q ∷ []) rs)) in
        rw ((in_time-early now q rs early).0, (in_time-early now q rs early).1, early)
          (record {
            next = rest.next;
            ran = rest.ran;
            lasts = rest.lasts;
            here =
                rest.here
                ∙ ap (λ l. some (record r { request_records = l }))
                    (append_assoc done (q ∷ []) (in_time now rs));
            others = rest.others;
            tells = rest.tells;
          })
  ]
