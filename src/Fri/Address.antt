-- ===== src/Fri/Address.antt =====
-- kuka_sunrise_fri_driver/src/robot_manager_node.cpp: `ValidateIPAdress`, the check of the robot
-- controller's address. A text is the list of its bytes. A result `none` is the exception that
-- `std::stoi` throws.
pub mod Quads
use kuka_drivers.Prelude.{
  Bool, List, Option, [], all, false, if◌then◌else◌, leb, length, ltb, none, not, some, true, ℕ,
  ◌&&◌, ◌*◌, ◌+◌, ◌-◌, ◌==◌, ◌||◌, ◌∷◌,
}

abbrev pub dot : ℕ
dot = 46

abbrev push_front : ℕ → List (List ℕ) → List (List ℕ)
push_front c [] = (c ∷ []) ∷ []
push_front c (part ∷ parts) = (c ∷ part) ∷ parts

-- The parts between the dots, one more than there are dots.
unfoldable pub split_ip : List ℕ → List (List ℕ)
split_ip [] = [] ∷ []
split_ip (c ∷ rest) =
    let parts = split_ip rest in if c == dot then [] ∷ parts else push_front c parts

abbrev is_digit : ℕ → Bool
is_digit c = leb 48 c && leb c 57

-- One of the characters of "[0123456789]".
abbrev is_listed : ℕ → Bool
is_listed c = is_digit c || c == 91 || c == 93

-- The leading digits, read behind the value `n` of those before.
unfoldable pub read_digits : ℕ → List ℕ → ℕ
read_digits n [] = n
read_digits n (c ∷ rest) =
    let more = read_digits (10 * n + (c - 48)) rest in if is_digit c then more else n

-- `std::stoi` of a text of listed characters: an exception if no digit is in front, or if the value
-- is above that of the largest int.
unfoldable pub stoi : List ℕ → Option ℕ
unfolding read_digits
stoi [] = none
stoi (c ∷ rest) =
    let value = read_digits 0 (c ∷ rest) in
    if not (is_digit c) then none else if ltb 2147483647 value then none else some value

abbrev in_range : Option ℕ → Option Bool
in_range none = none
in_range (some value) = some (leb value 255)

unfoldable pub check_part : List ℕ → Option Bool
unfolding stoi
check_part part =
    if length part == 0
    then some false
    else if not (all is_listed part)
    then some false
    else in_range (stoi part)

abbrev and_then : Option Bool → Option Bool → Option Bool
and_then none rest = none
and_then (some false) rest = some false
and_then (some true) rest = rest

unfoldable pub check_parts : List (List ℕ) → Option Bool
check_parts [] = some true
check_parts (part ∷ parts) = and_then (check_part part) (check_parts parts)

unfoldable pub validate_ip_adress : List ℕ → Option Bool
validate_ip_adress controller_ip =
    let split = split_ip controller_ip in
    if not (length split == 4) then some false else check_parts split
