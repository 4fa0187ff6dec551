-- ===== src/Nfs3/Basic.antt =====
-- Encoders and decoders of the basic types: mynfs/nfs3xdr.c from `encode_uint32` to
-- `xdr_decode_nfstime3`, `decode_post_op_fh3` and `encode_diropargs3`. A decoder gives what it stores
-- with the rest of the stream.
use mynfs.Base.{ℕ, ◌%◌, ◌^◌, ltb, ◌==◌, if◌then◌else◌, ◌||◌, List, [], length}
use mynfs.Nfs3.Stream.{XdrStream, e2big, enametoolong, Decoded, ok, err, ◌>>=◌, need}

-- `struct timespec64`
pub record Time : Type 0 where
  pub tv_sec : ℕ
  pub tv_nsec : ℕ

abbrev pub FileHandle : Type 0
FileHandle = List ℕ

-- NFS3_MAXNAMLEN, NFS3_FHSIZE, and the size of the verifiers.
pub record Limits : Type 0 where
  pub maxnamlen : ℕ
  pub fhsize : ℕ
  pub verfsize : ℕ

module _ {S : Type 0} (xdr : XdrStream S) where
  unfoldable pub encode_uint32 : ℕ → S → S
  encode_uint32 value s = xdr.put_be32 value s

  unfoldable pub decode_uint32 : S → Decoded (ℕ × S)
  decode_uint32 s = need (xdr.get_be32 s)

  unfoldable pub decode_uint64 : S → Decoded (ℕ × S)
  decode_uint64 s = need (xdr.get_hyper s)

  unfoldable pub decode_fileid3 : S → Decoded (ℕ × S)
  unfolding decode_uint64
  decode_fileid3 s = decode_uint64 s

  unfoldable pub encode_filename3 : List ℕ → S → S
  encode_filename3 name s = xdr.put_be32 (length name) (xdr.put_bytes name s)

  unfoldable pub encode_cookie3 : ℕ → S → S
  encode_cookie3 cookie s = xdr.put_hyper cookie s

  unfoldable pub decode_cookie3 : S → Decoded (ℕ × S)
  unfolding decode_uint64
  decode_cookie3 s = decode_uint64 s

  unfoldable pub encode_cookieverf3 : List ℕ → S → S
  encode_cookieverf3 verifier s = xdr.put_bytes verifier s

  unfoldable pub encode_createverf3 : List ℕ → S → S
  encode_createverf3 verifier s = xdr.put_bytes verifier s

  unfoldable pub encode_ftype3 : ℕ → S → S
  unfolding encode_uint32
  encode_ftype3 type s = encode_uint32 type s

  unfoldable pub encode_nfs_fh3 : FileHandle → S → S
  encode_nfs_fh3 fh s = xdr.put_be32 (length fh) (xdr.put_bytes fh s)

  unfoldable pub encode_nfstime3 : Time → S → S
  encode_nfstime3 t s = xdr.put_be32 (t.tv_sec % 2 ^ 32) (xdr.put_be32 (t.tv_nsec % 2 ^ 32) s)

  unfoldable pub decode_nfstime3 : S → Decoded (Time × S)
  decode_nfstime3 s = do
    (sec, s') ← need (xdr.get_be32 s)
    (nsec, s'') ← need (xdr.get_be32 s')
    ok (record { tv_sec = sec; tv_nsec = nsec }, s'')

  unfoldable pub encode_diropargs3 : FileHandle → List ℕ → S → S
  unfolding encode_nfs_fh3 encode_filename3
  encode_diropargs3 fh name s = encode_nfs_fh3 fh (encode_filename3 name s)

module _ {S : Type 0} (xdr : XdrStream S) (lim : Limits) where
  unfoldable pub decode_inline_filename3 : S → Decoded (List ℕ × S)
  decode_inline_filename3 s = do
    (count, s') ← need (xdr.get_be32 s)
    if ltb lim.maxnamlen count then err enametoolong else need (xdr.get_bytes count s')

  unfoldable pub decode_cookieverf3 : S → Decoded (List ℕ × S)
  decode_cookieverf3 s = need (xdr.get_bytes lim.verfsize s)

  unfoldable pub decode_writeverf3 : S → Decoded (List ℕ × S)
  decode_writeverf3 s = need (xdr.get_bytes lim.verfsize s)

  unfoldable pub decode_nfs_fh3 : S → Decoded (FileHandle × S)
  decode_nfs_fh3 s = do
    (size, s') ← need (xdr.get_be32 s)
    if ltb lim.fhsize size || size == 0 then err e2big else need (xdr.get_bytes size s')

  -- A handle that was not sent is set to zero.
  unfoldable pub decode_post_op_fh3 : S → Decoded (FileHandle × S)
  unfolding decode_nfs_fh3
  decode_post_op_fh3 s = do
    (follows, s') ← need (xdr.get_be32 s)
    if follows == 0 then ok ([], s') else decode_nfs_fh3 s'
