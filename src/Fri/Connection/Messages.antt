-- ===== src/Fri/Connection/Messages.antt =====
-- The data of the two long commands of
-- kuka_sunrise_fri_driver/src/connection_helpers/fri_connection.cpp, as a reader of the highest
-- byte first finds it.
use mathlib.Core.Option.{map as map_option}
use mathlib.Core.List.{append-nil, append_assoc}
use kuka_drivers.Prelude.{
  All, List, Option, String, [], ap, arith, if◌then◌else◌, none, refl, some, sym, ℕ, ◌%◌, ◌*◌, ◌++◌,
  ◌+◌, ◌/◌, ◌<◌, ◌==◌, ◌^◌, ◌∙◌, ◌∷◌, ◌≡◌,
}
use kuka_drivers.Fri.Bytes.{serialize_double, serialize_int}
use kuka_drivers.Fri.Connection.Commands.{
  control_mode_header, fri_config_data, impedance_data, serialize_joints,
}

abbrev be_int : ℕ → ℕ → ℕ → ℕ → ℕ
be_int a b c d = ((a * 256 + b) * 256 + c) * 256 + d

-- A reader of four ints behind a header of six bytes, the last of which is the length of the rest.
abbrev pub read_config : List ℕ → Option (ℕ × ℕ × ℕ × ℕ)
read_config
      (h0 ∷ h1 ∷ h2 ∷ h3 ∷ h4 ∷ size ∷ a0 ∷ a1 ∷ a2 ∷ a3 ∷ b0 ∷ b1 ∷ b2 ∷ b3 ∷ c0 ∷ c1 ∷ c2 ∷ c3
        ∷ d0 ∷ d1 ∷ d2 ∷ d3 ∷ []) =
    if size == 16
    then some (be_int a0 a1 a2 a3, be_int b0 b1 b2 b3, be_int c0 c1 c2 c3, be_int d0 d1 d2 d3)
    else none
read_config _ = none

be_int_lem :
    (n : ℕ)
    → n < 2 ^ 32
    → be_int (n / 256 / 256 / 256 % 256) (n / 256 / 256 % 256) (n / 256 % 256) (n % 256) ≡ n
be_int_lem n h = omega arith

-- A reader of the data of `setFRIConfig` gets the port, the send period, the receive multiplier and
-- the client's address, for numbers below 2^32, and no other byte is sent.
fri_config_read :
    (inet_addr : String → ℕ) (client_ip : String) (port period multiplier : ℕ)
    → inet_addr client_ip < 2 ^ 32
    → port < 2 ^ 32
    → period < 2 ^ 32
    → multiplier < 2 ^ 32
    → read_config (fri_config_data inet_addr client_ip port period multiplier)
      ≡ some (port, period, multiplier, inet_addr client_ip)
unfolding fri_config_data serialize_int
fri_config_read inet_addr client_ip port period multiplier hi hp hs hm =
    rw
      (
        be_int_lem port hp,
        be_int_lem period hs,
        be_int_lem multiplier hm,
        be_int_lem (inet_addr client_ip) hi,
      )
      refl

abbrev be_double : ℕ → ℕ → ℕ → ℕ → ℕ → ℕ → ℕ → ℕ → ℕ
be_double a b c d e f g h = be_int a b c d * 2 ^ 32 + be_int e f g h

-- A reader of doubles up to the end of a message.
unfoldable pub read_doubles : List ℕ → Option (List ℕ)
read_doubles [] = some []
read_doubles (a ∷ b ∷ c ∷ d ∷ e ∷ f ∷ g ∷ h ∷ rest) =
    map_option (λ values. be_double a b c d e f g h ∷ values) (read_doubles rest)
read_doubles _ = none

be_double_lem :
    (n : ℕ)
    → n < 2 ^ 64
    → be_double
        (n / 256 / 256 / 256 / 256 / 256 / 256 / 256 % 256)
        (n / 256 / 256 / 256 / 256 / 256 / 256 % 256)
        (n / 256 / 256 / 256 / 256 / 256 % 256)
        (n / 256 / 256 / 256 / 256 % 256)
        (n / 256 / 256 / 256 % 256)
        (n / 256 / 256 % 256)
        (n / 256 % 256)
        (n % 256)
      ≡ n
be_double_lem n h = omega arith

-- The bytes of the values in their order.
abbrev joint_bytes : List ℕ → List ℕ
joint_bytes [] = []
joint_bytes (v ∷ values) = (serialize_double v []).0 ++ joint_bytes values

serialize_joints_lem :
    (values out : List ℕ) → serialize_joints values out ≡ out ++ joint_bytes values
unfolding serialize_joints serialize_double
serialize_joints_lem [] out = sym (append-nil out)
serialize_joints_lem (v ∷ values) out =
    serialize_joints_lem values (serialize_double v out).0
    ∙ append_assoc out (serialize_double v []).0 (joint_bytes values)

read_joints :
    (values rest l : List ℕ)
    → All (λ v. v < 2 ^ 64) values
    → read_doubles rest ≡ some l
    → read_doubles (joint_bytes values ++ rest) ≡ some (values ++ l)
unfolding read_doubles serialize_double
read_joints [] rest l h e = e
read_joints (v ∷ values) rest l (h, hs) e =
    rw (be_double_lem v h, read_joints values rest l hs e) refl

-- For doubles given by their patterns below 2^64: behind the mode and the header, a reader of the
-- data of `setJointImpedanceControlMode` gets the stiffness of every joint and then the damping of
-- every joint, and no other byte is sent.
pub impedance_read :
    (stiffness damping : List ℕ)
    → All (λ v. v < 2 ^ 64) stiffness
    → All (λ v. v < 2 ^ 64) damping
    → (bytes : List ℕ) × (impedance_data stiffness damping ≡ 2 ∷ control_mode_header ++ bytes)
      × (read_doubles bytes ≡ some (stiffness ++ damping))
unfolding impedance_data read_doubles
impedance_read stiffness damping hs hd =
    let header : List ℕ = 2 ∷ control_mode_header in
    let read_damping : read_doubles (joint_bytes damping) ≡ some damping =
      rw (append-nil (joint_bytes damping), append-nil damping) at
        (read_joints damping [] [] hd refl) in
    (
      joint_bytes stiffness ++ joint_bytes damping,
      serialize_joints_lem damping (serialize_joints stiffness header)
          ∙ ap (λ l. l ++ joint_bytes damping) (serialize_joints_lem stiffness header)
          ∙ append_assoc header (joint_bytes stiffness) (joint_bytes damping),
      read_joints stiffness (joint_bytes damping) damping hs read_damping,
    )
