-- ===== src/Idmap/Numbers.antt =====
-- Ids that travel as numbers (mynfs/nfs4idmap.c).
use mynfs.Base.{
  ℕ, zero, suc, ◌+◌, ◌-◌, ◌%◌, ◌^◌, ◌≤◌, ◌<◌, ◌≡◌, ◌⊎◌, inl, inr, refl, sym, ap, ◌∙◌, if◌then◌else◌,
  Bool, true, false, Option, none, some, List, [], ◌∷◌, length, take, arith,
}
use mynfs.Idmap.Names.{
  Kernel, Mapper, mapped, c_string, is_no_number, low32, map_string_to_numeric,
  map_numeric_to_string, map_name_to_id, map_id_to_name, to_id, or_lookup, or_number,
}

take_all : (n : ℕ) (bs : List ℕ) → length bs ≤ n → take n bs ≡ bs
take_all zero [] h = refl
take_all (suc n) [] h = refl
take_all zero (b ∷ bs) h = absurd (omega arith)
take_all (suc n) (b ∷ bs) h = ap (λ t. b ∷ t) (take_all n bs (omega arith))

module _ (B : Kernel) where
  -- A printed number is read back, but for what does not fit.
  map_string_to_numeric-print_u :
      (n : ℕ) → n < 10 ^ 15 → map_string_to_numeric B (B.print_u n) ≡ some (n % 2 ^ 32)
  unfolding map_string_to_numeric
  map_string_to_numeric-print_u n h =
      let number : is_no_number (B.print_u n) ≡ false =
        ground (arith, B.print_u_plain n, B.print_u_short n h) in
      ap (λ b. if b then none else low32 (B.kstrtoul (c_string (B.print_u n)))) number
      ∙ ap (λ s. low32 (B.kstrtoul s)) (B.print_u_digits n)
      ∙ ap low32 (B.kstrtoul-print_u n h)

module _ {K : Type 0} (B : Kernel) (M : Mapper K) where
  -- Where the server takes numbers, or the mapper knows no name, an id of the kernel that the
  -- namespace maps both ways, to 32 bits, travels to the server as a number and back again, in a buffer
  -- of at least 16 bytes.
  pub map_name_to_id-map_id_to_name :
      (nomap : Bool) (k : K) (buflen : ℕ)
      → M.from_id k < 2 ^ 32
      → M.make_id (M.from_id k) ≡ some k
      → 16 ≤ buflen
      → (nomap ≡ true) ⊎ (M.lookup_name (M.from_id k) ≡ none)
      → map_name_to_id B M ((map_id_to_name B M nomap k buflen).0) ≡ mapped k
  unfolding map_name_to_id map_id_to_name map_numeric_to_string
  map_name_to_id-map_id_to_name nomap k buflen h m l c =
      let id = M.from_id k in
      let below : id < 10 ^ 15 = omega (arith, h) in
      let whole : take (buflen - 1) (B.print_u id) ≡ B.print_u id =
        take_all (buflen - 1) (B.print_u id) (omega (arith, B.print_u_short id below, l)) in
      let same : id % 2 ^ 32 ≡ id = omega (arith, h) in
      ap (λ o. map_name_to_id B M ((or_number B M id buflen o).0))
        (no_name nomap (M.lookup_name id) c)
      ∙ ap (map_name_to_id B M) whole
      ∙ ap (λ o. to_id B M (or_lookup B M (B.print_u id) o))
          (map_string_to_numeric-print_u B id below)
      ∙ ap (λ n. to_id B M (some n)) same
      ∙ ap_valid
    where
      no_name :
          (b : Bool) (o : Option (List ℕ))
          → (b ≡ true) ⊎ (o ≡ none)
          → (if b then none else o) ≡ none
      no_name true o c = refl
      no_name false o (inl e) = cc
      no_name false o (inr e) = e

      ap_valid : to_id B M (some (M.from_id k)) ≡ mapped k
      ap_valid = rw m refl

  -- Two numbers below 10 ^ 15 that differ by 2 ^ 32 name the same id, though one does not fit into 32
  -- bits.
  pub map_name_to_id_wraps :
      (n : ℕ)
      → n + 2 ^ 32 < 10 ^ 15
      → map_name_to_id B M (B.print_u (n + 2 ^ 32)) ≡ map_name_to_id B M (B.print_u n)
  unfolding map_name_to_id
  map_name_to_id_wraps n h =
      let wrapped : (n + 2 ^ 32) % 2 ^ 32 ≡ n % 2 ^ 32 = omega arith in
      ap (λ o. to_id B M (or_lookup B M (B.print_u (n + 2 ^ 32)) o))
        (map_string_to_numeric-print_u B (n + 2 ^ 32) h)
      ∙ ap (λ v. to_id B M (some v)) wrapped
      ∙ sym (
          ap (λ o. to_id B M (or_lookup B M (B.print_u n) o))
            (map_string_to_numeric-print_u B n (omega (arith, h))))
