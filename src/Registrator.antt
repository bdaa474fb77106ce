-- ===== src/Registrator.antt =====
-- src/server/registrator_class.cpp and `register_service` of src/framework/rsf_api.cpp. The socket's
-- receive times out after `TIMEOUT_RCV`; what it returns is an argument.
use reliable_service_framewo.Prelude.{
  ℕ, Bool, true, false, Option, none, some, List, [], ◌∷◌, if◌then◌else◌, replicate,
}
use reliable_service_framewo.Prelude.Int.{ℤ, pos, negsuc}
use reliable_service_framewo.Wire.{ByteOrder, RegistrationModule}

-- What a call leaves: the static flag `send_reg`, the messages sent, and the value returned.
pub record Attempt : Type 0 where
  pub send_reg : Bool
  pub sent : List RegistrationModule
  pub port : ℤ

-- `memset` and `strcpy(rm.signature, "pippo")`
abbrev pub signature : List ℕ
signature = b'p' ∷ b'i' ∷ b'p' ∷ b'p' ∷ b'o' ∷ replicate 27 0

module _ (bo : ByteOrder) where
  open bo use {htonl, ntohs}

  -- `received` is the port that the reply holds, or nothing when the receive times out.
  unfoldable pub register_service : RegistrationModule → Option ℕ → Bool → Attempt
  register_service reg_mod received send_reg =
      let request = record reg_mod { service = htonl reg_mod.service } in
      let sent : List RegistrationModule = if send_reg then [] else request ∷ [] in
      elim received [
        | none ↦ record { send_reg = true; sent = sent; port = negsuc 0 }
        | some p ↦ record { send_reg = false; sent = sent; port = pos (ntohs p) }
      ]

  unfoldable pub registration : ℕ → Option ℕ → Bool → Attempt
  unfolding register_service
  registration service received send_reg =
      register_service (record { signature = signature; service = service }) received send_reg
