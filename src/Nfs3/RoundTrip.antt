-- ===== src/Nfs3/RoundTrip.antt =====
-- What was encoded is read back.
use mynfs.Base.{
  ℕ, ◌%◌, ◌^◌, ◌<◌, ◌≡◌, refl, ◌∙◌, ◌==◌, if◌then◌else◌, Bool, true, false, Option, none, some,
  arith,
}
use mynfs.Nfs3.Stream.{XdrStream, Decoded, ok, ◌>>=◌, need}
use mynfs.Nfs3.Basic.{Time, encode_nfstime3, decode_nfstime3}
use mynfs.Nfs3.Attributes.{Iattr, allugo, put_word_if, put_size_if, put_time_if, encode_sattr3}

abbrev pub IsTime : Time → Type 0
IsTime t = (t.tv_sec < 2 ^ 32) × (t.tv_nsec < 2 ^ 32)

-- What the grammar of the protocol calls `time_how`, with the time.
pub data SetTime : Type 0 where
  dont_change set_to_server_time : SetTime
  set_to_client_time : Time → SetTime

-- `sattr3` in the words of the protocol.
pub record Sattr3 : Type 0 where
  pub mode : Option ℕ
  pub uid : Option ℕ
  pub gid : Option ℕ
  pub size : Option ℕ
  pub atime : SetTime
  pub mtime : SetTime

abbrev pub given : Bool → ℕ → Option ℕ
given true n = some n
given false n = none

abbrev pub time_how : Bool → Bool → Time → SetTime
time_how true touched t = set_to_client_time t
time_how false true t = set_to_server_time
time_how false false t = dont_change

-- What a change of attributes asks for.
abbrev pub asked : Iattr → Sattr3
asked a = record {
  mode = given a.attr_mode (allugo a.ia_mode);
  uid = given a.attr_uid a.ia_uid;
  gid = given a.attr_gid a.ia_gid;
  size = given a.attr_size a.ia_size;
  atime = time_how a.attr_atime_set a.attr_atime a.ia_atime;
  mtime = time_how a.attr_mtime_set a.attr_mtime a.ia_mtime;
}

-- The fields that are 32 or 64 bits wide in the kernel, and times that 32 bits can tell.
pub record IsIattr (a : Iattr) : Type 0 where
  pub uid : a.ia_uid < 2 ^ 32
  pub gid : a.ia_gid < 2 ^ 32
  pub size : a.ia_size < 2 ^ 64
  pub atime : IsTime a.ia_atime
  pub mtime : IsTime a.ia_mtime

abbrev pub IsGuard : Option Time → Type 0
IsGuard none = Unit {0}
IsGuard (some t) = IsTime t

module _ {S : Type 0} (xdr : XdrStream S) where
  -- The grammar of the protocol, read off a stream.
  abbrev pub optional : (S → Decoded (ℕ × S)) → ℕ → S → Decoded (Option ℕ × S)
  optional get set_it s =
      let there = get s >>= λ r. ok (some (r.0), r.1) in if set_it == 1 then there else ok (none, s)

  abbrev pub read_optional : (S → Decoded (ℕ × S)) → S → Decoded (Option ℕ × S)
  read_optional get s = need (xdr.get_be32 s) >>= λ r. optional get (r.0) (r.1)

  abbrev pub read_word : S → Decoded (ℕ × S)
  read_word s = need (xdr.get_be32 s)

  abbrev pub read_hyper : S → Decoded (ℕ × S)
  read_hyper s = need (xdr.get_hyper s)

  unfoldable pub set_time : ℕ → S → Decoded (SetTime × S)
  unfolding decode_nfstime3
  set_time how s =
      let there = decode_nfstime3 xdr s >>= λ r. ok (set_to_client_time (r.0), r.1) in
      if how == 2
      then there
      else if how == 1
      then ok (set_to_server_time, s)
      else ok (dont_change, s)

  unfoldable pub read_time : S → Decoded (SetTime × S)
  unfolding set_time
  read_time s = need (xdr.get_be32 s) >>= λ r. set_time (r.0) (r.1)

  unfoldable pub read_sattr3 : S → Decoded (Sattr3 × S)
  unfolding read_time
  read_sattr3 s = do
    (mode, s1) ← read_optional read_word s
    (uid, s2) ← read_optional read_word s1
    (gid, s3) ← read_optional read_word s2
    (size, s4) ← read_optional read_hyper s3
    (atime, s5) ← read_time s4
    (mtime, s6) ← read_time s5
    ok (record { mode = mode; uid = uid; gid = gid; size = size; atime = atime; mtime = mtime }, s6)

  unfoldable pub guard_time : ℕ → S → Decoded (Option Time × S)
  unfolding decode_nfstime3
  guard_time check s =
      let there = decode_nfstime3 xdr s >>= λ r. ok (some (r.0), r.1) in
      if check == 1 then there else ok (none, s)

  read_optional-word :
      (b : Bool) (n : ℕ) (s : S)
      → n < 2 ^ 32
      → read_optional read_word (put_word_if xdr b n s) ≡ ok (given b n, s)
  read_optional-word true n s h =
      rw (xdr.get_put_be32 1 (xdr.put_be32 n s) (omega arith), xdr.get_put_be32 n s h) refl
  read_optional-word false n s h = rw (xdr.get_put_be32 0 s (omega arith)) refl

  read_optional-hyper :
      (b : Bool) (n : ℕ) (s : S)
      → n < 2 ^ 64
      → read_optional read_hyper (put_size_if xdr b n s) ≡ ok (given b n, s)
  read_optional-hyper true n s h =
      rw (xdr.get_put_be32 1 (xdr.put_hyper n s) (omega arith), xdr.get_put_hyper n s h) refl
  read_optional-hyper false n s h = rw (xdr.get_put_be32 0 s (omega arith)) refl

  small : (n : ℕ) → n < 2 ^ 32 → n % 2 ^ 32 ≡ n
  small n h = omega arith

  decode-put_words :
      (m n : ℕ) (s : S)
      → m < 2 ^ 32
      → n < 2 ^ 32
      → decode_nfstime3 xdr (xdr.put_be32 m (xdr.put_be32 n s))
        ≡ ok (record { tv_sec = m; tv_nsec = n }, s)
  unfolding decode_nfstime3
  decode-put_words m n s a b =
      rw (xdr.get_put_be32 m (xdr.put_be32 n s) a, xdr.get_put_be32 n s b) refl

  pub decode-encode_nfstime3 :
      (t : Time) (s : S) → IsTime t → decode_nfstime3 xdr (encode_nfstime3 xdr t s) ≡ ok (t, s)
  unfolding encode_nfstime3
  decode-encode_nfstime3 t s (a, b) =
      decode-put_words (t.tv_sec % 2 ^ 32) (t.tv_nsec % 2 ^ 32) s (omega arith) (omega arith)
      ∙ rw (small t.tv_sec a, small t.tv_nsec b) refl

  read_time-put :
      (set touched : Bool) (t : Time) (s : S)
      → IsTime t
      → read_time (put_time_if xdr set touched t s) ≡ ok (time_how set touched t, s)
  unfolding read_time
  read_time-put true touched t s h =
      rw (xdr.get_put_be32 2 (encode_nfstime3 xdr t s) (omega arith), decode-encode_nfstime3 t s h)
        refl
  read_time-put false true t s h = rw (xdr.get_put_be32 1 s (omega arith)) refl
  read_time-put false false t s h = rw (xdr.get_put_be32 0 s (omega arith)) refl

  pub read-encode_sattr3 :
      (a : Iattr) (s : S) → IsIattr a → read_sattr3 (encode_sattr3 xdr a s) ≡ ok (asked a, s)
  unfolding read_sattr3 encode_sattr3
  read-encode_sattr3 a s h =
      let s5 = put_time_if xdr a.attr_mtime_set a.attr_mtime a.ia_mtime s in
      let s4 = put_time_if xdr a.attr_atime_set a.attr_atime a.ia_atime s5 in
      let s3 = put_size_if xdr a.attr_size a.ia_size s4 in
      let s2 = put_word_if xdr a.attr_gid a.ia_gid s3 in
      let s1 = put_word_if xdr a.attr_uid a.ia_uid s2 in
      rw
        (
          read_optional-word a.attr_mode (allugo a.ia_mode) s1 (omega arith),
          read_optional-word a.attr_uid a.ia_uid s2 h.uid,
          read_optional-word a.attr_gid a.ia_gid s3 h.gid,
          read_optional-hyper a.attr_size a.ia_size s4 h.size,
          read_time-put a.attr_atime_set a.attr_atime a.ia_atime s5 h.atime,
          read_time-put a.attr_mtime_set a.attr_mtime a.ia_mtime s h.mtime,
        )
        refl
