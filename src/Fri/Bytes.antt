-- ===== src/Fri/Bytes.antt =====
-- kuka_sunrise_fri_driver/include/kuka_sunrise_fri_driver/serialization.hpp, on a little-endian
-- machine with an int of 4 bytes, as its comments suppose. An int is its 32-bit pattern, a double
-- its 64-bit pattern.
pub mod RoundTrip
use kuka_drivers.Prelude.{
  List, Option, [], if◌then◌else◌, length, ltb, none, reverse, some, suc, take, zero, ℕ, ◌%◌, ◌*◌,
  ◌++◌, ◌+◌, ◌/◌, ◌∷◌,
}

-- The bytes of a value in memory, the lowest first, and the value that bytes stand for.
abbrev le_bytes : ℕ → ℕ → List ℕ
le_bytes zero n = []
le_bytes (suc k) n = n % 256 ∷ le_bytes k (n / 256)

abbrev pub of_le_bytes : List ℕ → ℕ
of_le_bytes [] = 0
of_le_bytes (b ∷ bs) = b + 256 * of_le_bytes bs

abbrev sizeof_int : ℕ
sizeof_int = 4

abbrev sizeof_double : ℕ
sizeof_double = 8

-- Appends the value with its highest byte first; the number is the function's result.
unfoldable pub serialize_int : ℕ → List ℕ → List ℕ × ℕ
serialize_int integer_in serialized_out =
    (serialized_out ++ reverse (le_bytes sizeof_int integer_in), sizeof_int)

-- The source returns the size of an int here too.
unfoldable pub serialize_double : ℕ → List ℕ → List ℕ × ℕ
serialize_double double_in serialized_out =
    (serialized_out ++ reverse (le_bytes sizeof_double double_in), sizeof_int)

-- `none` is the read behind the end of a vector that is too short.
unfoldable pub deserialize_int : List ℕ → Option ℕ
deserialize_int serialized_in =
    if ltb (length serialized_in) sizeof_int
    then none
    else some (of_le_bytes (take sizeof_int serialized_in))

-- The source reads an int from the bytes here too, and converts it: `double_of_int`.
unfoldable pub deserialize_double : {Double : Type 0} → (ℕ → Double) → List ℕ → Option Double
deserialize_double double_of_int serialized_in =
    if ltb (length serialized_in) sizeof_int
    then none
    else some (double_of_int (of_le_bytes (take sizeof_int serialized_in)))
