-- ===== src/Nfs3/Examples.antt =====
-- A stream as a list of items, and the theorems about NFSv3 applied to it.
use mynfs.Base.{
  ℕ, ◌+◌, ◌≡◌, refl, ◌==◌, ==_iff, if◌then◌else◌, true, false, Option, some, none, List, [], ◌∷◌,
  length, arith,
}
use mynfs.Nfs3.Stream.{padded, XdrStream, ok}
use mynfs.Nfs3.Basic.{Time, Limits}
use mynfs.Nfs3.Attributes.{Iattr, enc_setattr3args}
use mynfs.Nfs3.RoundTrip.{asked, IsIattr}
use mynfs.Nfs3.Calls.{read_setattr3args, read-enc_setattr3args}

data Item : Type 0 where
  word hyper : ℕ → Item
  opaque : List ℕ → Item

abbrev items_get_be32 : List Item → Option (ℕ × List Item)
items_get_be32 (word n ∷ s) = some (n, s)
items_get_be32 _ = none

abbrev items_get_hyper : List Item → Option (ℕ × List Item)
items_get_hyper (hyper n ∷ s) = some (n, s)
items_get_hyper _ = none

abbrev items_get_bytes : ℕ → List Item → Option (List ℕ × List Item)
items_get_bytes n (opaque bs ∷ s) = if length bs == n then some (bs, s) else none
items_get_bytes n _ = none

abbrev items_used : List Item → ℕ
items_used [] = 0
items_used (word n ∷ s) = 4 + items_used s
items_used (hyper n ∷ s) = 8 + items_used s
items_used (opaque bs ∷ s) = padded (length bs) + items_used s

items_get_bytes_lem :
    (bs : List ℕ) (s : List Item) → items_get_bytes (length bs) (opaque bs ∷ s) ≡ some (bs, s)
items_get_bytes_lem bs s = rw ((==_iff (length bs) (length bs)).1 refl) refl

abbrev items : XdrStream (List Item)
items = record {
  put_be32 = λ n s. word n ∷ s;
  put_hyper = λ n s. hyper n ∷ s;
  put_bytes = λ bs s. opaque bs ∷ s;
  get_be32 = items_get_be32;
  get_hyper = items_get_hyper;
  get_bytes = items_get_bytes;
  used = items_used;
  get_put_be32 = λ n s h. refl;
  get_put_hyper = λ n s h. refl;
  get_put_bytes = items_get_bytes_lem;
  used-put_be32 = λ n s. refl;
  used-put_hyper = λ n s. refl;
  used-put_bytes = λ bs s. refl;
}

abbrev limits : Limits
limits = record { maxnamlen = 255; fhsize = 64; verfsize = 8 }

abbrev handle : List ℕ
handle = 1 ∷ 2 ∷ 3 ∷ 4 ∷ []

abbrev noon : Time
noon = record { tv_sec = 43200; tv_nsec = 5 }

-- Sets the mode, the size and the modification time.
abbrev attributes : Iattr
attributes = record {
  attr_mode = true;
  attr_uid = false;
  attr_gid = false;
  attr_size = true;
  attr_atime = true;
  attr_atime_set = false;
  attr_mtime = true;
  attr_mtime_set = true;
  ia_mode = 33188;
  ia_uid = 0;
  ia_gid = 0;
  ia_size = 4096;
  ia_atime = noon;
  ia_mtime = noon;
}

attributes-IsIattr : IsIattr attributes
attributes-IsIattr = record {
  uid = omega arith;
  gid = omega arith;
  size = omega arith;
  atime = (omega arith, omega arith);
  mtime = (omega arith, omega arith);
}

read-enc_setattr3args_example :
    read_setattr3args items limits (enc_setattr3args items handle attributes (some noon) [])
    ≡ ok ((handle, asked attributes, some noon), [])
read-enc_setattr3args_example =
    read-enc_setattr3args items limits handle attributes (some noon) []
      (omega arith, omega arith, omega arith) attributes-IsIattr (omega arith, omega arith)
