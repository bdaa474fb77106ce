-- ===== src/Sockets/Laws.antt =====
-- Endpoints and messages of several frames (src/utilities/util.cpp).
use native.Mathlib.Nat.{pow-suc}
use reliable_service_framewo.Prelude.{
  ℕ, zero, suc, ◌+◌, ◌^◌, ◌≤◌, ◌<◌, ◌≡◌, refl, sym, ap, ◌∙◌, ◌≢◌, ◌/◌, ◌%◌, true, false, List, [],
  ◌∷◌, ◌++◌, map, ltb, leb, ◌==◌, length-append, length, Bool-cases, inl, inr, ok, arith,
}
use reliable_service_framewo.Prelude.Int.{pos}
use reliable_service_framewo.Prelude.Text.{codes}
use reliable_service_framewo.Params.{digits, to_string, read_digits}
use reliable_service_framewo.Params.RoundTrip.{read_digits-digits}
use reliable_service_framewo.Sockets.{
  Socket, SocketType, add_socket, send_frames, send_multi_msg, tcp_protocol, bind,
}

digits-length :
    (f k n : ℕ) (out : List ℕ) → n < 10 ^ suc k → length (digits f n out) ≤ suc k + length out
unfolding digits
digits-length zero k n out h = omega arith
digits-length (suc f) zero n out h = ground arith
digits-length (suc f) (suc k) n out h = elim (Bool-cases (ltb n 10)) [
  | inl small ↦ rw small (omega arith)
  | inr large ↦
      let room : n / 10 < 10 ^ suc k = omega (arith, pow-suc 10 (suc k)) in
      rw large (omega (arith, digits-length f k (n / 10) ((b'0' + n % 10) ∷ out) room))
]

port_text-length : (port : ℕ) → port < 2 ^ 16 → length (to_string (pos port)) ≤ 5
unfolding to_string
port_text-length port h = omega (arith, digits-length 10 4 port [] (omega arith))

port_text-injective :
    (p q : ℕ) → p < 2 ^ 16 → q < 2 ^ 16 → to_string (pos p) ≡ to_string (pos q) → p ≡ q
unfolding to_string read_digits
port_text-injective p q hp hq e =
    let read = λ (n : ℕ) (h : n < 10 ^ 10). read_digits-digits 10 n [] h in
    let same = ap (λ s. (read_digits s 0).0) e in
    ap (λ r. r.0) (sym (read p (omega arith))) ∙ same ∙ ap (λ r. r.0) (read q (omega arith))

append-injective : (s t u : List ℕ) → s ++ t ≡ s ++ u → t ≡ u
append-injective [] t u e = e
append-injective (c ∷ s) t u e = append-injective s t u (cc)

abbrev pub tcp_socket : List ℕ → ℕ → SocketType → ℕ → Socket
tcp_socket addr port skt_type dir = record {
  skt_type = skt_type;
  conf = tcp_protocol ++ addr ++ codes ":" ++ to_string (pos port);
  bound = dir == bind;
}

pub add_socket_tcp :
    (addr : List ℕ) (port : ℕ) (skt_type : SocketType) (dir : ℕ)
    → 0 < port
    → port < 2 ^ 16
    → add_socket addr port skt_type dir ≡ ok (tcp_socket addr port skt_type dir)
unfolding add_socket
add_socket_tcp addr port skt_type dir h h16 =
    let fits : leb (length (to_string (pos port)) + 1) 6 ≡ true =
      ground (arith, port_text-length port h16) in
    let tcp : (port == 0) ≡ false = ground arith in rw (fits, tcp) refl

-- Two `uint16_t` ports other than 0 both fit the buffer of `add_socket`, and on one address their
-- sockets get different endpoints.
pub add_socket-ne :
    (addr : List ℕ) (p q dir dir' : ℕ) (skt_type skt_type' : SocketType)
    → (0 < p) × (p < 2 ^ 16)
    → (0 < q) × (q < 2 ^ 16)
    → p ≢ q
    → (s : Socket) × (t : Socket) × (add_socket addr p skt_type dir ≡ ok s)
      × (add_socket addr q skt_type' dir' ≡ ok t)
      × (s.conf ≢ t.conf)
add_socket-ne addr p q dir dir' skt_type skt_type' (hp, p16) (hq, q16) ne = (
  tcp_socket addr p skt_type dir,
  tcp_socket addr q skt_type' dir',
  add_socket_tcp addr p skt_type dir hp p16,
  add_socket_tcp addr q skt_type' dir' hq q16,
  λ e. ne (
      port_text-injective p q p16 q16 (append-injective (tcp_protocol ++ addr ++ codes ":") _ _ e)),
)

send_frames-map {ℓ} :
    {F : Type ℓ} (front : List F) (last : F)
    → send_frames (front ++ last ∷ []) ≡ map (λ f. (f, true)) front ++ (last, false) ∷ []
unfolding send_frames
send_frames-map [] last = refl
send_frames-map (f ∷ []) last = refl
send_frames-map (f ∷ g ∷ front) last = ap (◌∷◌ (f, true)) (send_frames-map (g ∷ front) last)

-- A message of 1 to 256 frames goes out frame by frame in its order, every frame but the last with
-- the flag that more follow.
pub send_multi_msg-map {ℓ} :
    {F : Type ℓ} (front : List F) (last : F)
    → length front ≤ 255
    → send_multi_msg (front ++ last ∷ []) ≡ ok (map (λ f. (f, true)) front ++ (last, false) ∷ [])
unfolding send_multi_msg
send_multi_msg-map [] last h = refl
send_multi_msg-map (f ∷ front) last h =
    let short : ltb 256 (length (f ∷ front ++ last ∷ [])) ≡ false =
      ground (arith, length-append front (last ∷ [])) in
    rw short (ap ok (send_frames-map (f ∷ front) last))
