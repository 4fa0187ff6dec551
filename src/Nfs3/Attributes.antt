-- ===== src/Nfs3/Attributes.antt =====
-- The attributes that a client sets: `encode_sattr3`, `encode_sattrguard3` and the arguments of SETATTR
-- (mynfs/nfs3xdr.c).
use mynfs.Base.{ℕ, ◌+◌, ◌*◌, ◌%◌, ◌^◌, if◌then◌else◌, Bool, true, false, Option, none, some}
use mynfs.Nfs3.Stream.{XdrStream}
use mynfs.Nfs3.Basic.{Time, FileHandle, encode_nfs_fh3, encode_nfstime3}

-- `struct iattr`; the user and group are what `from_kuid_munged` and `from_kgid_munged` give.
pub record Iattr : Type 0 where
  pub attr_mode : Bool  -- ATTR_MODE of ia_valid, and so on
  pub attr_uid : Bool
  pub attr_gid : Bool
  pub attr_size : Bool
  pub attr_atime : Bool
  pub attr_atime_set : Bool
  pub attr_mtime : Bool
  pub attr_mtime_set : Bool
  pub ia_mode : ℕ
  pub ia_uid : ℕ
  pub ia_gid : ℕ
  pub ia_size : ℕ
  pub ia_atime : Time
  pub ia_mtime : Time

-- `ia_mode & S_IALLUGO`, the low twelve bits.
abbrev pub allugo : ℕ → ℕ
allugo mode = mode % 2 ^ 12

abbrev pub room_if : Bool → ℕ → ℕ
room_if b n = if b then n else 0

-- The bytes that `encode_sattr3` reserves.
unfoldable pub sattr3_nbytes : Iattr → ℕ
sattr3_nbytes a =
    6 * 4
    + room_if a.attr_mode 4
    + room_if a.attr_uid 4
    + room_if a.attr_gid 4
    + room_if a.attr_size 8
    + room_if a.attr_atime_set 8
    + room_if a.attr_mtime_set 8

module _ {S : Type 0} (xdr : XdrStream S) where
  abbrev pub put_word_if : Bool → ℕ → S → S
  put_word_if true value s = xdr.put_be32 1 (xdr.put_be32 value s)
  put_word_if false value s = xdr.put_be32 0 s

  abbrev pub put_size_if : Bool → ℕ → S → S
  put_size_if true value s = xdr.put_be32 1 (xdr.put_hyper value s)
  put_size_if false value s = xdr.put_be32 0 s

  -- The time that the client sets, the server's own, or none.
  abbrev pub put_time_if : Bool → Bool → Time → S → S
  put_time_if true touched t s = xdr.put_be32 2 (encode_nfstime3 xdr t s)
  put_time_if false true t s = xdr.put_be32 1 s
  put_time_if false false t s = xdr.put_be32 0 s

  unfoldable pub encode_sattr3 : Iattr → S → S
  unfolding encode_nfstime3
  encode_sattr3 a s = put_word_if a.attr_mode (allugo a.ia_mode) (
      put_word_if a.attr_uid a.ia_uid (
        put_word_if a.attr_gid a.ia_gid (
          put_size_if a.attr_size a.ia_size (
            put_time_if a.attr_atime_set a.attr_atime a.ia_atime
              (put_time_if a.attr_mtime_set a.attr_mtime a.ia_mtime s)))))

  -- `guardtime`, where `guard` is set.
  unfoldable pub encode_sattrguard3 : Option Time → S → S
  unfolding encode_nfstime3
  encode_sattrguard3 none s = xdr.put_be32 0 s
  encode_sattrguard3 (some guardtime) s = xdr.put_be32 1 (encode_nfstime3 xdr guardtime s)

  -- `nfs3_xdr_enc_setattr3args`
  unfoldable pub enc_setattr3args : FileHandle → Iattr → Option Time → S → S
  unfolding encode_nfs_fh3 encode_sattr3 encode_sattrguard3
  enc_setattr3args fh sattr guard s =
      encode_nfs_fh3 xdr fh (encode_sattr3 sattr (encode_sattrguard3 guard s))
