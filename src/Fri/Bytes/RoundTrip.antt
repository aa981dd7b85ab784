-- ===== src/Fri/Bytes/RoundTrip.antt =====
-- What a reader of the serialized bytes finds.
use kuka_drivers.Prelude.{List, [], arith, refl, reverse, some, ℕ, ◌%◌, ◌/◌, ◌<◌, ◌^◌, ◌↔◌, ◌≡◌}
use kuka_drivers.Fri.Bytes.{
  deserialize_double, deserialize_int, of_le_bytes, serialize_double, serialize_int,
}

-- The value of bytes sent highest first, as the robot controller's `DataInput` reads them.
abbrev of_be_bytes : List ℕ → ℕ
of_be_bytes bs = of_le_bytes (reverse bs)

-- The value that the first int of a message has for a reader of the highest byte first is the one
-- that was serialized.
serialize_int_be : (n : ℕ) → n < 2 ^ 32 → of_be_bytes (serialize_int n []).0 ≡ n
unfolding serialize_int
serialize_int_be n h = omega arith

serialize_double_be : (d : ℕ) → d < 2 ^ 64 → of_be_bytes (serialize_double d []).0 ≡ d
unfolding serialize_double
serialize_double_be d h = omega arith

-- For an int given by its pattern below 2^32, `deserializeNext` reads back what `serializeNext`
-- wrote exactly if the four bytes of the int read the same both ways.
deserialize-serialize :
    (n : ℕ)
    → n < 2 ^ 32
    → (deserialize_int (serialize_int n []).0 ≡ some n)
      ↔ ((n % 256 ≡ n / 2 ^ 24) × (n / 256 % 256 ≡ n / 2 ^ 16 % 256))
unfolding serialize_int deserialize_int
deserialize-serialize n h = (λ e. ground arith, λ e. ground arith)

upper_half :
    (d e : ℕ)
    → d / 4294967296 ≡ e / 4294967296
    → d / 256 / 256 / 256 / 256 ≡ e / 256 / 256 / 256 / 256
upper_half d e h = omega (arith, h)

-- What is read back from a double depends on the upper half of its bits only.
deserialize_double_lem :
    {Double : Type 0} (double_of_int : ℕ → Double) (d e : ℕ)
    → d / 4294967296 ≡ e / 4294967296
    → deserialize_double double_of_int (serialize_double d []).0
      ≡ deserialize_double double_of_int (serialize_double e []).0
unfolding deserialize_double serialize_double
deserialize_double_lem double_of_int d e h = rw (upper_half d e h) refl
