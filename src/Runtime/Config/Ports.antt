-- ===== src/Runtime/Config/Ports.antt =====
-- The port and the id that `PeerConfig::from_env` reads (src/peer_runtime.rs).
use rustchain.Base.{
  ℕ, zero, suc, ◌/◌, ◌+◌, ◌-◌, ◌*◌, ◌%◌, ◌^◌, ◌≤◌, ◌<◌, ◌≡◌, ◌≢◌, refl, true, false, Option, some,
  List, [], ◌∷◌, Result, ok, All, ltb, leb, ◌&&◌, ◌==◌, nat_eq, arith, Bool-cases, Result-cases,
  inl, inr, ap, ◌∙◌,
}
use rustchain.Data.{PeerId, Error}
use rustchain.Network.{Text, IpAddr, SocketAddr, decimal}
use rustchain.Runtime.Config.{
  PeerConfig, Variables, parse_digits, parse_unsigned, peer_id_from_str, peer_id_to_port_offset,
  read_peer_id, read_consensus_mode, read_bind_ip, from_env,
}
use rustchain.Storage.{digits_onto}
use rustchain.Storage.Names.{value, value-digits_onto, IsDigit, digits_onto-AreDigits}

module _ (parse_ip : Text → Option IpAddr)
    (resolve : Text → ℕ → Result Error (List SocketAddr)) where
  from_env-port :
      (vars : Variables) (config : PeerConfig)
      → from_env parse_ip resolve vars ≡ ok config
      → (config.peer_id < 2 ^ 16) × (config.listening_addr.port ≡ (3000 + config.peer_id) % 2 ^ 16)
  unfolding from_env peer_id_to_port_offset
  from_env-port vars config done = elim (Result-cases (read_peer_id vars.peer_id)) [
    | inr (e, bad) ↦ absurd (ground (arith, bad))
    | inl (peer_id, a) ↦ elim (Result-cases (read_consensus_mode vars.consensus_mode)) [
      | inr (e, bad) ↦ absurd (ground (arith, a, bad))
      | inl (mode, b) ↦ elim (Bool-cases (ltb peer_id (2 ^ 16))) [
        | inr big ↦ absurd (ground (arith, a, b, big))
        | inl fits ↦ elim (Result-cases (read_bind_ip parse_ip vars.peer_bind_host)) [
          | inr (e, bad) ↦ absurd (ground (arith, a, b, fits, bad))
          | inl (ip, c) ↦ ground (arith, a, b, c, fits)
        ]
      ]
    ]
  ]

  -- A configuration that is read has a peer id of 16 bits and a port of 16 bits, which is the base
  -- port plus the id for ids up to 62535, and beyond them wraps to the id less 62536.
  pub from_env_bounds :
      (vars : Variables) (config : PeerConfig)
      → from_env parse_ip resolve vars ≡ ok config
      → (config.peer_id < 2 ^ 16)
        × (config.listening_addr.port < 2 ^ 16)
        × (config.peer_id ≤ 62535 → config.listening_addr.port ≡ 3000 + config.peer_id)
        × (62535 < config.peer_id → config.listening_addr.port + 62536 ≡ config.peer_id)
  from_env_bounds vars config done =
      let (small, port) = from_env-port vars config done in
      (small, omega (arith, port), λ low. omega (arith, port), λ high. omega (arith, port))

  pub from_env_distinct_ports :
      (vars vars' : Variables) (config config' : PeerConfig)
      → from_env parse_ip resolve vars ≡ ok config
      → from_env parse_ip resolve vars' ≡ ok config'
      → config.listening_addr.port ≡ config'.listening_addr.port
      → config.peer_id ≡ config'.peer_id
  from_env_distinct_ports vars vars' config config' done done' same =
      let (small, port) = from_env-port vars config done in
      let (small', port') = from_env-port vars' config' done' in omega (arith, port, port')

-- Digits are read as their value.
parse_digits-value :
    (ds : Text) (n : ℕ)
    → All IsDigit ds
    → value n ds < 2 ^ 32
    → parse_digits n ds ≡ some (value n ds)
unfolding parse_digits value
parse_digits-value [] n h fits = ground arith
parse_digits-value (d ∷ ds) n h fits =
    let digit : (leb 48 d && leb d 57) ≡ true = ground arith in
    rw (digit, parse_digits) (parse_digits-value ds (n * 10 + (d - 48)) h.1 fits)

parse_of_digits : (ds : Text) → ds ≢ [] → All IsDigit ds → peer_id_from_str ds ≡ parse_digits 0 ds
unfolding peer_id_from_str parse_unsigned
parse_of_digits [] some_digit h = absurd (some_digit refl)
parse_of_digits (d ∷ ds) some_digit h =
    let no_sign : (d == 43) ≡ false = ground (arith, h.0) in rw no_sign refl

digits_onto-ne-nil : (fuel n c : ℕ) (rest : List ℕ) → digits_onto fuel n (c ∷ rest) ≢ []
unfolding digits_onto
digits_onto-ne-nil zero n c rest = λ e. cc e
digits_onto-ne-nil (suc fuel) n c rest = elim (Bool-cases (ltb n 10)) [
  | inl last ↦ rw (last, digits_onto) (λ e. cc e)
  | inr above ↦ rw (above, digits_onto) (digits_onto-ne-nil fuel (n / 10) (48 + n % 10) (c ∷ rest))
]

decimal-ne-nil : (n : ℕ) → digits_onto 10 n [] ≢ []
unfolding digits_onto
decimal-ne-nil n = elim (Bool-cases (ltb n 10)) [
  | inl last ↦ rw (last, digits_onto) (λ e. cc e)
  | inr above ↦ rw (above, digits_onto) (digits_onto-ne-nil 9 (n / 10) (48 + n % 10) [])
]

pub peer_id_from_str-decimal :
    (peer_id : PeerId) → peer_id < 2 ^ 32 → peer_id_from_str (decimal peer_id) ≡ some peer_id
unfolding decimal
peer_id_from_str-decimal n fits =
    let ds = digits_onto 10 n [] in
    let digits = digits_onto-AreDigits 10 n [] tt in
    let read : value 0 ds ≡ n = unfold value in value-digits_onto 10 n [] (omega arith) in
    parse_of_digits ds (decimal-ne-nil n) digits
    ∙ parse_digits-value ds 0 digits (rw read fits)
    ∙ ap some read
