-- ===== src/Server/Task.antt =====
-- src/server/server_class.cpp: the thread `task` that serves one request.
pub mod Served
use reliable_service_framewo.Prelude.{ℕ, false, some, List, ◌∷◌, Outcome, ok, ◌>>=◌}
use reliable_service_framewo.Prelude.Int.{ℤ, to_uint32}
use reliable_service_framewo.Wire.{ByteOrder, ServerReply}
use reliable_service_framewo.Params.{deserialize}

-- `deserialize(par_stream, par1)`; a failed stream leaves `unread` in the variable.
unfoldable pub first_parameter : List ℕ → ℤ → ℤ
first_parameter text unread = elim (deserialize 1 text) [ some (x ∷ _) ↦ x | _ ↦ unread ]

module _ (bo : ByteOrder) where
  open bo use {htonl}

  unfoldable pub task : ℕ → ℕ → (ℤ → Outcome ℤ) → List ℕ → ℤ → Outcome ServerReply
  task id service_type service parameters unread = do
    val_elab ← service (first_parameter parameters unread)
    ok (record {
      heartbeat = false;
      duplicated = false;
      result = htonl (to_uint32 val_elab);
      service = htonl service_type;
      id = id;
    })
