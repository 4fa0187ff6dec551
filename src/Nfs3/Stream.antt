-- ===== src/Nfs3/Stream.antt =====
-- What the encoders take from the kernel's XDR streams, as a record of operations with their
-- documented laws. A stream is seen from a place on; `put` writes before what stands there.
use mynfs.Base.{ℕ, ◌+◌, ◌*◌, ◌/◌, ◌^◌, ◌<◌, ◌≡◌, Option, none, some, List, length}

-- How many bytes so many bytes take, padded to a multiple of four.
abbrev pub padded : ℕ → ℕ
padded n = (n + 3) / 4 * 4

pub record XdrStream (S : Type 0) : Type 0 where
  pub put_be32 : ℕ → S → S  -- `*p++ = cpu_to_be32(n)` in reserved space
  pub put_hyper : ℕ → S → S  -- `xdr_encode_hyper`
  pub put_bytes : List ℕ → S → S  -- `memcpy`, or the bytes of `xdr_encode_opaque`, with the padding
  pub get_be32 : S → Option (ℕ × S)  -- `xdr_inline_decode(xdr, 4)` and `be32_to_cpup`
  pub get_hyper : S → Option (ℕ × S)
  pub get_bytes : ℕ → S → Option (List ℕ × S)  -- `xdr_inline_decode(xdr, n)`, as bytes
  pub used : S → ℕ  -- the bytes from the place on
  pub get_put_be32 : (n : ℕ) (s : S) → n < 2 ^ 32 → get_be32 (put_be32 n s) ≡ some (n, s)
  pub get_put_hyper : (n : ℕ) (s : S) → n < 2 ^ 64 → get_hyper (put_hyper n s) ≡ some (n, s)
  pub get_put_bytes : (bs : List ℕ) (s : S) → get_bytes (length bs) (put_bytes bs s) ≡ some (bs, s)
  pub used-put_be32 : (n : ℕ) (s : S) → used (put_be32 n s) ≡ 4 + used s
  pub used-put_hyper : (n : ℕ) (s : S) → used (put_hyper n s) ≡ 8 + used s
  pub used-put_bytes : (bs : List ℕ) (s : S) → used (put_bytes bs s) ≡ padded (length bs) + used s

pub data Error : Type 0 where
  eio e2big enametoolong : Error

pub data Decoded (A : Type 0) : Type 0 where
  ok : A → Decoded A
  err : Error → Decoded A

infixl 5 ◌>>=◌
abbrev pub ◌>>=◌ : {A B : Type 0} → Decoded A → (A → Decoded B) → Decoded B
ok a >>= f = f a
err e >>= f = err e

-- The stream ends too early.
abbrev pub need : {A : Type 0} → Option A → Decoded A
need none = err eio
need (some a) = ok a
