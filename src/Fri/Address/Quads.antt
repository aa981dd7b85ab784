-- ===== src/Fri/Address/Quads.antt =====
-- The addresses that `ValidateIPAdress` of kuka_sunrise_fri_driver/src/robot_manager_node.cpp
-- accepts.
use kuka_drivers.Prelude.{
  All, Bool-cases, List, [], arith, false, if◌then◌else◌, inl, inr, ltb, refl, some, true, ℕ, ◌%◌,
  ◌++◌, ◌+◌, ◌/◌, ◌==◌, ◌∷◌, ◌≡◌, ◌≤◌,
}
use kuka_drivers.Fri.Address.{
  check_part, check_parts, dot, read_digits, split_ip, stoi, validate_ip_adress,
}

-- A number below 1000 in decimal, without leading zeros.
abbrev decimal : ℕ → List ℕ
decimal n =
    if ltb n 10
    then (48 + n) ∷ []
    else if ltb n 100
    then (48 + n / 10) ∷ (48 + n % 10) ∷ []
    else (48 + n / 100) ∷ (48 + n / 10 % 10) ∷ (48 + n % 10) ∷ []

abbrev pub dotted : ℕ → ℕ → ℕ → ℕ → List ℕ
dotted a b c d = decimal a ++ (dot ∷ (decimal b ++ (dot ∷ (decimal c ++ (dot ∷ decimal d)))))

split-part :
    (part rest : List ℕ)
    → All (λ c. (c == dot) ≡ false) part
    → split_ip (part ++ dot ∷ rest) ≡ part ∷ split_ip rest
unfolding split_ip
split-part [] rest h = refl
split-part (c ∷ part) rest (h, hs) = rw (h, split-part part rest hs) refl

split-last : (part : List ℕ) → All (λ c. (c == dot) ≡ false) part → split_ip part ≡ part ∷ []
unfolding split_ip
split-last [] h = refl
split-last (c ∷ part) (h, hs) = rw (h, split-last part hs) refl

decimal_dotless : (n : ℕ) → n ≤ 255 → All (λ c. (c == dot) ≡ false) (decimal n)
decimal_dotless n h = elim (Bool-cases (ltb n 10)) [
  | inl e ↦ rw e (ground arith, tt)
  | inr e ↦ elim (Bool-cases (ltb n 100)) [
    | inl f ↦ rw (e, f) (ground arith, (ground arith, tt))
    | inr f ↦ rw (e, f) (ground arith, (ground arith, (ground arith, tt)))
  ]
]

decimal_accepted : (n : ℕ) → n ≤ 255 → check_part (decimal n) ≡ some true
unfolding check_part stoi read_digits
decimal_accepted n h = elim (Bool-cases (ltb n 10)) [
  | inl e ↦ rw e (ground arith)
  | inr e ↦ elim (Bool-cases (ltb n 100)) [
    | inl f ↦ rw (e, f) (ground arith)
    | inr f ↦ rw (e, f) (ground arith)
  ]
]

-- Four numbers of at most 255, written in decimal with dots between them, are accepted.
dotted_accepted :
    (a b c d : ℕ)
    → a ≤ 255
    → b ≤ 255
    → c ≤ 255
    → d ≤ 255
    → validate_ip_adress (dotted a b c d) ≡ some true
unfolding validate_ip_adress check_parts
dotted_accepted a b c d ha hb hc hd =
    let after_c = decimal c ++ (dot ∷ decimal d) in
    let after_b = decimal b ++ (dot ∷ after_c) in
    rw
      (
        split-part (decimal a) after_b (decimal_dotless a ha),
        split-part (decimal b) after_c (decimal_dotless b hb),
        split-part (decimal c) (decimal d) (decimal_dotless c hc),
        split-last (decimal d) (decimal_dotless d hd),
        decimal_accepted a ha,
        decimal_accepted b hb,
        decimal_accepted c hc,
        decimal_accepted d hd,
      )
      refl
