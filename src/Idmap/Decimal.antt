-- ===== src/Idmap/Decimal.antt =====
-- Numbers printed and read in decimal, to show that what is asked of the kernel's functions can hold.
use mynfs.Base.{
  ℕ, zero, suc, ◌+◌, ◌-◌, ◌*◌, ◌/◌, ◌%◌, ◌≤◌, ◌<◌, ltb, leb, ◌==◌, ◌≡◌, refl, ap, ◌∙◌,
  if◌then◌else◌, Bool, true, false, ◌&&◌, ◌||◌, Bool-cases, inl, inr, Option, none, some, List, [],
  ◌∷◌, ◌++◌, length, length-append, arith,
}
use mynfs.Idmap.Names.{Kernel, has_byte, c_string}

unfoldable dec : ℕ → ℕ → List ℕ
dec zero n = (48 + n) ∷ []
dec (suc f) n =
    let rest = dec f (n / 10) in if ltb n 10 then (48 + n) ∷ [] else rest ++ (48 + n % 10) ∷ []

abbrev value : ℕ → List ℕ → ℕ
value acc [] = acc
value acc (b ∷ bs) = value (acc * 10 + (b - 48)) bs

abbrev all_digits : List ℕ → Bool
all_digits [] = true
all_digits (b ∷ bs) = (leb 48 b && ltb b 58) && all_digits bs

unfoldable read_digits : List ℕ → Option ℕ
read_digits bs = if all_digits bs then some (value 0 bs) else none

value-append :
    (acc : ℕ) (xs : List ℕ) (d : ℕ) → value acc (xs ++ d ∷ []) ≡ value acc xs * 10 + (d - 48)
value-append acc [] d = refl
value-append acc (x ∷ xs) d = value-append (acc * 10 + (x - 48)) xs d

all_digits-append :
    (xs : List ℕ) (d : ℕ) → all_digits (xs ++ d ∷ []) ≡ (all_digits xs && (leb 48 d && ltb d 58))
all_digits-append [] d = ground arith
all_digits-append (x ∷ xs) d = ground (arith, all_digits-append xs d)

value-dec : (f n : ℕ) → value 0 (dec f n) ≡ n
unfolding dec
value-dec zero n = omega arith
value-dec (suc f) n = elim (Bool-cases (ltb n 10)) [
  | inl p ↦ rw p (omega arith)
  | inr p ↦
      rw p (omega (arith, value-append 0 (dec f (n / 10)) (48 + n % 10), value-dec f (n / 10)))
]

dec-all_digits : (f n : ℕ) → n ≤ f → all_digits (dec f n) ≡ true
unfolding dec
dec-all_digits zero n h = ground (arith, h)
dec-all_digits (suc f) n h = elim (Bool-cases (ltb n 10)) [
  | inl p ↦ rw p (ground (arith, p))
  | inr p ↦ rw p (
      ground (
        arith,
        p,
        all_digits-append (dec f (n / 10)) (48 + n % 10),
        dec-all_digits f (n / 10) (ground (arith, p, h)),
      ))
]

abbrev ten : ℕ → ℕ
ten zero = 10
ten (suc k) = 10 * ten k

length-dec : (f k n : ℕ) → n < ten k → length (dec f n) ≤ suc k
unfolding dec
length-dec zero k n h = omega arith
length-dec (suc f) zero n h = rw (ltb_ten n h) (omega arith)
  where
    ltb_ten : (n : ℕ) → n < 10 → ltb n 10 ≡ true
    ltb_ten n h = ground arith
length-dec (suc f) (suc k) n h = elim (Bool-cases (ltb n 10)) [
  | inl p ↦ rw p (omega arith)
  | inr p ↦ rw p (
      omega (
        arith,
        length-append (dec f (n / 10)) ((48 + n % 10) ∷ []),
        length-dec f k (n / 10) (omega (arith, h)),
      ))
]

no_byte :
    (c : ℕ) (bs : List ℕ)
    → (c == 0 || c == 64) ≡ true
    → all_digits bs ≡ true
    → has_byte c bs ≡ false
no_byte c [] p h = refl
no_byte c (b ∷ bs) p h = ground (arith, p, h, no_byte c bs p (ground (arith, h)))

c_string-digits : (bs : List ℕ) → all_digits bs ≡ true → c_string bs ≡ bs
c_string-digits [] h = refl
c_string-digits (zero ∷ bs) h = absurd (ground (arith, h))
c_string-digits (suc b ∷ bs) h = ap (λ t. suc b ∷ t) (c_string-digits bs (ground (arith, h)))

pub decimal : Kernel
unfolding read_digits
decimal = record {
  kstrtoul = read_digits;
  print_u = λ n. dec n n;
  kstrtoul-print_u = λ n h.
      ap (λ b. if b then some (value 0 (dec n n)) else none) (dec-all_digits n n (omega arith))
      ∙ ap some (value-dec n n);
  print_u_short = λ n h. length-dec n 14 n (omega (arith, h));
  print_u_digits = λ n. c_string-digits (dec n n) (dec-all_digits n n (omega arith));
  print_u_plain = λ n. no_byte 64 (dec n n) refl (dec-all_digits n n (omega arith));
}
