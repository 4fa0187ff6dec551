-- ===== src/Idmap/Names.antt =====
-- Mapping the names of users and groups: mynfs/nfs4idmap.c. A name is its bytes. The user and the group
-- functions are the same with other kernel functions.
use mynfs.Base.{
  ℕ, zero, suc, ◌-◌, ◌%◌, ◌^◌, ◌≤◌, ◌<◌, leb, ◌==◌, ◌≡◌, if◌then◌else◌, Bool, false, ◌||◌, Option,
  none, some, List, [], ◌∷◌, length, take,
}

-- A byte among those of a string.
abbrev pub has_byte : ℕ → List ℕ → Bool
has_byte c [] = false
has_byte c (b ∷ bs) = b == c || has_byte c bs

-- The string in a buffer, which ends before the first NUL.
abbrev pub c_string : List ℕ → List ℕ
c_string [] = []
c_string (zero ∷ bs) = []
c_string (suc b ∷ bs) = suc b ∷ c_string bs

-- What is taken from the kernel: `kstrtoul` with base 0, and what `snprintf` prints for "%u".
pub record Kernel : Type 0 where
  pub kstrtoul : List ℕ → Option ℕ
  pub print_u : ℕ → List ℕ
  pub kstrtoul-print_u : (n : ℕ) → n < 10 ^ 15 → kstrtoul (print_u n) ≡ some n
  pub print_u_short : (n : ℕ) → n < 10 ^ 15 → length (print_u n) ≤ 15
  pub print_u_digits : (n : ℕ) → c_string (print_u n) ≡ print_u n
  pub print_u_plain : (n : ℕ) → has_byte 64 (print_u n) ≡ false

-- `namelen >= sizeof(buf)`, or an '@'.
abbrev pub is_no_number : List ℕ → Bool
is_no_number name = has_byte 64 name || leb 16 (length name)

-- `*res = val` keeps 32 bits.
abbrev pub low32 : Option ℕ → Option ℕ
low32 none = none
low32 (some v) = some (v % 2 ^ 32)

module _ (B : Kernel) where
  unfoldable pub map_string_to_numeric : List ℕ → Option ℕ
  map_string_to_numeric name =
      if is_no_number name then none else low32 (B.kstrtoul (c_string name))

  -- What is left in the buffer, and the length that is returned.
  unfoldable pub map_numeric_to_string : ℕ → ℕ → List ℕ × ℕ
  map_numeric_to_string id buflen = (take (buflen - 1) (B.print_u id), length (B.print_u id))

-- Errors.
pub data Mapped {ℓ} (A : Type ℓ) : Type ℓ where
  mapped : A → Mapped A
  lookup_failed erange : Mapped A

-- The id mapper's answers, and the mapping of ids to the kernel's; `make_id` fails on an invalid id.
pub record Mapper (K : Type 0) : Type 0 where
  pub lookup_id : List ℕ → Option ℕ
  pub lookup_name : ℕ → Option (List ℕ)
  pub make_id : ℕ → Option K
  pub from_id : K → ℕ

module _ {K : Type 0} (B : Kernel) (M : Mapper K) where
  abbrev pub to_id : Option ℕ → Mapped K
  to_id none = lookup_failed
  to_id (some id) = valid_id (M.make_id id)
    where
      valid_id : Option K → Mapped K
      valid_id none = erange
      valid_id (some k) = mapped k

  abbrev pub or_lookup : List ℕ → Option ℕ → Option ℕ
  or_lookup name (some id) = some id
  or_lookup name none = M.lookup_id name

  -- `nfs_map_name_to_uid`, `nfs_map_group_to_gid`
  unfoldable pub map_name_to_id : List ℕ → Mapped K
  unfolding map_string_to_numeric
  map_name_to_id name = to_id (or_lookup name (map_string_to_numeric B name))

  abbrev pub or_number : ℕ → ℕ → Option (List ℕ) → List ℕ × ℕ
  or_number id buflen (some name) = (name, length name)
  or_number id buflen none = map_numeric_to_string B id buflen

  -- `nfs_map_uid_to_name`, `nfs_map_gid_to_group`; `nomap` is NFS_CAP_UIDGID_NOMAP.
  unfoldable pub map_id_to_name : Bool → K → ℕ → List ℕ × ℕ
  unfolding map_numeric_to_string
  map_id_to_name nomap k buflen =
      let id = M.from_id k in or_number id buflen (if nomap then none else M.lookup_name id)
