-- ===== src/Sockets.antt =====
-- src/utilities/util.cpp: `add_socket` and `send_multi_msg`. What ZeroMQ makes of an endpoint or of
-- a frame is not modelled: a socket is what it was asked to be, and a send is the frame with its flag.
pub mod Laws
use reliable_service_framewo.Prelude.{
  ℕ, ◌+◌, Bool, true, false, List, [], ◌∷◌, ◌++◌, ltb, leb, ◌==◌, if◌then◌else◌, length, Outcome,
  ok, undefined, hangs, ◌>>=◌, ◌>>◌, in_bounds,
}
use reliable_service_framewo.Prelude.Int.{pos}
use reliable_service_framewo.Prelude.Text.{codes}
use reliable_service_framewo.Params.{to_string}

abbrev pub tcp_protocol : List ℕ
tcp_protocol = codes "tcp://"

abbrev pub ipc_protocol : List ℕ
ipc_protocol = codes "ipc://"

abbrev pub max_length_string_port : ℕ
max_length_string_port = 6

-- `dir == BIND`
abbrev pub bind : ℕ
bind = 0

abbrev pub connect : ℕ
connect = 1

-- The types of sockets of ZeroMQ that the framework uses.
pub data SocketType : Type 0 where
  zmq_req zmq_rep zmq_router zmq_dealer : SocketType

pub record Socket : Type 0 where
  pub skt_type : SocketType
  pub conf : List ℕ
  pub bound : Bool

-- The port is written into an array of six bytes, behind which `sprintf` must not write.
unfoldable pub add_socket : List ℕ → ℕ → SocketType → ℕ → Outcome Socket
add_socket addr port skt_type dir = do
  let p = to_string (pos port)
  in_bounds (leb (length p + 1) max_length_string_port)
  ok (record {
    skt_type = skt_type;
    conf = if port == 0 then ipc_protocol ++ addr else tcp_protocol ++ addr ++ codes ":" ++ p;
    bound = dir == bind;
  })

-- The frames in their order; `true` stands for `ZMQ_SNDMORE`.
unfoldable pub send_frames {ℓ} : {F : Type ℓ} → List F → List (F × Bool)
send_frames [] = []
send_frames (f ∷ []) = (f, false) ∷ []
send_frames (f ∷ g ∷ fs) = (f, true) ∷ send_frames (g ∷ fs)

-- With no frame `msg.size() - 1` is the largest number, and the loop reads past the vector; its
-- counter is a `uint8_t`, so with more than 256 frames it never ends.
unfoldable pub send_multi_msg {ℓ} : {F : Type ℓ} → List F → Outcome (List (F × Bool))
unfolding send_frames
send_multi_msg [] = undefined
send_multi_msg (f ∷ fs) = if ltb 256 (length (f ∷ fs)) then hangs else ok (send_frames (f ∷ fs))
