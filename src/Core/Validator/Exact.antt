-- ===== src/Core/Validator/Exact.antt =====
-- The validator accepts exactly the rearrangements of the expected names.
use mathlib.Core.Logic.Or
use mathlib.Core.Logic.{∥∥₁_elim}
use mathlib.Core.List.{
  Mem, Mem-prop, Nodup, Nodup-cons, Nodup-nil, Perm, Permᴰ, mem-cons, not-mem-nil,
  perm_ext_iff_of_Nodup, perm_middle, append-nil,
}
use mathlib.Core.List.Perm
use native.Mathlib.Nat.{ℕ_set}
use kuka_drivers.Prelude.{
  &&-eq-true, Bool, Bool-cases, List, Option, String, [], all, ap, arith, false, inl, inr, length,
  none, refl, some, str_eq, str_eq_iff, suc, sym, true, ◌++◌, ◌↔◌, ◌∙◌, ◌∷◌, ◌≡◌,
}
use kuka_drivers.Core.Validator.{all_seen, contains, scan_interfaces, validate_interfaces}

Mem-contains : (x : String) (ys : List String) → contains x ys ≡ true → Mem x ys
unfolding contains
Mem-contains x [] h = cc
Mem-contains x (y ∷ ys) h = elim (Bool-cases (str_eq y x)) [
  | inl e ↦ mem-cons.1 (Or.inl (sym ((str_eq_iff y x).0 e)))
  | inr e ↦ mem-cons.1 (Or.inr (Mem-contains x ys (ground arith)))
]

Bool_set : (a b : Bool) → IsProp (a ≡ b)
Bool_set = hlevel

contains-Mem : (x : String) (ys : List String) → Mem x ys → contains x ys ≡ true
unfolding contains
contains-Mem x [] m = absurd (not-mem-nil m)
contains-Mem x (y ∷ ys) m =
    Or.elim (Bool_set _ _) (mem-cons.0 m) (λ e. ground (arith, str_eq_iff y x, e))
      (λ k. ground (arith, contains-Mem x ys k))

not-contains : (x : String) (ys : List String) → ¬ Mem x ys → contains x ys ≡ false
not-contains x ys n = elim (Bool-cases (contains x ys)) [
  | inl e ↦ absurd (n (Mem-contains x ys e))
  | inr e ↦ e
]

pub not-Mem : (x : String) (ys : List String) → contains x ys ≡ false → ¬ Mem x ys
not-Mem x ys e m = cc (contains-Mem x ys m)

-- What a completed scan has established.
abbrev Scanned : List String → List String → List String → List String → Type 0
Scanned expected seen xs s =
    Nodup s × Perm (xs ++ seen) s × ((a : String) → Mem a xs → Mem a expected)

scan_facts :
    (expected seen xs s : List String)
    → scan_interfaces expected seen xs ≡ some s
    → Nodup seen
    → Scanned expected seen xs s
unfolding scan_interfaces
scan_facts expected seen [] s h d =
    let e : seen ≡ s = cc in (rw e at d, rw e (Perm.refl s), λ a m. absurd (not-mem-nil m))
scan_facts expected seen (x ∷ xs) s h d = elim (Bool-cases (contains x expected)) [
  | inr e ↦ cc (rw e at h)
  | inl e ↦ elim (Bool-cases (contains x seen)) [
    | inl f ↦ cc (rw (e, f) at h)
    | inr f ↦
        let (n, p, w) =
          scan_facts expected (x ∷ seen) xs s (rw (e, f) at h)
            (Nodup-cons.1 (not-Mem x seen f, d)) in
        (
          n,
          Perm.trans (Perm.symm (perm_middle xs seen)) p,
          λ a m.
              Or.elim Mem-prop (mem-cons.0 m) (λ q. rw q (Mem-contains x expected e)) (λ k. w a k),
        )
  ]
]

scan_total :
    (expected seen xs : List String)
    → ((a : String) → Mem a xs → Mem a expected)
    → Nodup xs
    → ((a : String) → Mem a xs → ¬ Mem a seen)
    → (s : List String) × (scan_interfaces expected seen xs ≡ some s)
unfolding scan_interfaces
scan_total expected seen [] w d n = (seen, refl)
scan_total expected seen (x ∷ xs) w d n =
    let (s, e) =
      scan_total expected (x ∷ seen) xs (λ a m. w a (mem-cons.1 (Or.inr m))) (Nodup-cons.0 d).1
        fresh in
    (
      s,
      rw
          (
            contains-Mem x expected (w x (mem-cons.1 (Or.inl refl))),
            not-contains x seen (n x (mem-cons.1 (Or.inl refl))),
          )
          e,
    )
  where
    fresh : (a : String) → Mem a xs → ¬ Mem a (x ∷ seen)
    fresh a m k =
        Or.elim (λ p q. absurd p) (mem-cons.0 k) (λ e. (Nodup-cons.0 d).0 (rw e at m))
          (λ q. n a (mem-cons.1 (Or.inr m)) q)

all_Mem :
    (s xs : List String) → all (λ e. contains e s) xs ≡ true → (a : String) → Mem a xs → Mem a s
all_Mem s [] h a m = absurd (not-mem-nil m)
all_Mem s (x ∷ xs) h a m =
    let (p, q) = &&-eq-true _ _ h in
    Or.elim Mem-prop (mem-cons.0 m) (λ e. rw e (Mem-contains x s p)) (λ k. all_Mem s xs q a k)

Mem-all :
    (s xs : List String) → ((a : String) → Mem a xs → Mem a s) → all (λ e. contains e s) xs ≡ true
Mem-all s [] w = refl
Mem-all s (x ∷ xs) w =
    rw (contains-Mem x s (w x (mem-cons.1 (Or.inl refl))))
      (Mem-all s xs (λ a m. w a (mem-cons.1 (Or.inr m))))

length-Permᴰ : {xs ys : List String} → Permᴰ xs ys → length xs ≡ length ys
length-Permᴰ Permᴰ.nil = refl
length-Permᴰ (Permᴰ.cons e p) = ap suc (length-Permᴰ p)
length-Permᴰ (Permᴰ.swap e f) = refl
length-Permᴰ (Permᴰ.trans p q) = length-Permᴰ p ∙ length-Permᴰ q

length-Perm : {xs ys : List String} → Perm xs ys → length xs ≡ length ys
length-Perm p = ∥∥₁_elim p (ℕ_set _ _) length-Permᴰ

accepted_perm :
    (declared expected : List String)
    → Nodup expected
    → validate_interfaces declared expected ≡ true
    → Perm declared expected
unfolding validate_interfaces
accepted_perm declared expected d h = go (scan_interfaces expected [] declared) refl (ground arith)
  where
    go :
        (o : Option (List String))
        → scan_interfaces expected [] declared ≡ o
        → all_seen expected o ≡ true
        → Perm declared expected
    go none e k = cc
    go (some s) e k =
        let (n, p, w) = scan_facts expected [] declared s e Nodup-nil in
        let p' : Perm declared s = rw append-nil at p in
        (perm_ext_iff_of_Nodup (Perm.nodup (Perm.symm p') n) d).1
          (λ a. (w a, λ m. (Perm.mem_iff p').1 (all_Mem s expected k a m)))

perm_accepted :
    (declared expected : List String)
    → Nodup expected
    → Perm declared expected
    → validate_interfaces declared expected ≡ true
unfolding validate_interfaces
perm_accepted declared expected d p =
    let (s, e) =
      scan_total expected [] declared (λ a m. (Perm.mem_iff p).0 m) (Perm.nodup (Perm.symm p) d)
        (λ a m. not-mem-nil) in
    let (n, q, w) = scan_facts expected [] declared s e Nodup-nil in
    let q' : Perm declared s = rw append-nil at q in
    let k = Mem-all s expected (λ a m. (Perm.mem_iff q').0 ((Perm.mem_iff p).1 m)) in
    rw (length-Perm p, e) (ground (arith, k))

-- For expected names without repetition, the validator accepts a joint's declared interfaces
-- exactly when they are the expected names in some order: none missing, none unknown, none twice.
pub validate_interfaces_exact :
    (declared expected : List String)
    → Nodup expected
    → (validate_interfaces declared expected ≡ true) ↔ Perm declared expected
validate_interfaces_exact declared expected d =
    (accepted_perm declared expected d, perm_accepted declared expected d)
