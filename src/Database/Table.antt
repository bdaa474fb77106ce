-- ===== src/Database/Table.antt =====
-- src/broker/service_database_class.cpp: `print_htable`, the rows that it hands to `write_log`. It goes
-- through the services in the order of iteration; `ss` and `log` stand outside of the loops, and are
-- never cleared.
use reliable_service_framewo.Prelude.{ℕ, Bool, true, false, List, [], ◌∷◌, ◌++◌, if◌then◌else◌}
use reliable_service_framewo.Prelude.Int.{ℤ, pos}
use reliable_service_framewo.Prelude.Text.{codes}
use reliable_service_framewo.Params.{to_string}
use reliable_service_framewo.Database.{ServiceRecord, RequestRecord, Database}

abbrev decimal : ℕ → List ℕ
decimal n = to_string (pos n)

-- The rows so far, and the variables `ss` and `log`.
pub record Printing : Type 0 where
  pub rows : List (List ℕ)
  pub ss : List ℕ
  pub log : Bool

abbrev write : Printing → Printing
write p = record p { rows = p.rows ++ p.ss ∷ [] }

print_values : List ℤ → List ℕ → List ℕ
print_values [] ss = ss
print_values (x ∷ xs) ss = print_values xs (ss ++ to_string x ++ codes " ")

-- The loop over the requests of a service.
unfoldable pub print_requests : List RequestRecord → Printing → Printing
unfolding print_values
print_requests [] p = p
print_requests (r ∷ rs) p =
    let ss = p.ss ++ codes " Client id " ++ decimal r.client_id ++ codes " Voter values " in
    print_requests rs (write (record p { ss = print_values r.results ss; log = true }))

-- The loop over the services.
unfoldable pub print_services : List (ℕ × ServiceRecord) → Printing → Printing
unfolding print_requests
print_services [] p = p
print_services ((service, r) ∷ entries) p =
    let ss =
      p.ss
      ++ codes "Service: "
      ++ decimal service
      ++ codes " Owner: "
      ++ r.owner
      ++ codes " Copies: "
      ++ decimal r.num_copies_reliable
      ++ codes " Socket: "
      ++ decimal r.dealer_socket in
    let p' = print_requests r.request_records (record p { ss = ss }) in
    print_services entries (if p'.log then p' else write p')

unfoldable pub print_htable : Database → List (List ℕ)
unfolding print_services
print_htable db = (print_services db.services_db (record { rows = []; ss = []; log = false })).rows
