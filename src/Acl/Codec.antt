-- ===== src/Acl/Codec.antt =====
-- The ACL blob format: encoding and decoding are inverse to each other.
use briefs_utils.Base.{ℕ, ◌*◌, ◌^◌, ◌<◌, ◌≡◌, ◌≢◌, refl, arith}
use briefs_utils.Base.{true, false, none, some, List, [], ◌∷◌}
use briefs_utils.Base.{length, ◌⊎◌, Option-cases, Bool-cases, inl, inr}
use briefs_utils.Base.Bytes.{le16, le32, All}
use briefs_utils.Base.Words.{IsByte}
use mathlib.Core.Path.{subst}
use briefs_utils.Acl.{
  non_empty, PosixAclEntry, is_tag, decode_entries, decode_posix_acl, encode_entries,
  encode_posix_acl,
}

-- An entry with a known tag and fields that fit the format.
abbrev pub IsEntry : PosixAclEntry → Type 0
IsEntry e = (is_tag e.tag ≡ true) × (e.perm < 2 ^ 16) × (e.id < 2 ^ 32)

length-encode_entries : (es : List PosixAclEntry) → length (encode_entries es) ≡ 8 * length es
unfolding encode_entries
length-encode_entries [] = refl
length-encode_entries (e ∷ es) = omega (arith, length-encode_entries es)

decode-encode_entries :
    (es : List PosixAclEntry) → All IsEntry es → decode_entries (encode_entries es) ≡ some es
unfolding encode_entries decode_entries
decode-encode_entries [] h = refl
decode-encode_entries (e ∷ es) (h, hs) = ground (arith, decode-encode_entries es hs)

-- A non-empty list of well-formed entries is decoded from its encoding.
pub decode-encode :
    (es : List PosixAclEntry)
    → es ≢ []
    → All IsEntry es
    → decode_posix_acl (encode_posix_acl es) ≡ some es
unfolding encode_posix_acl decode_posix_acl
decode-encode [] n h = absurd (n refl)
decode-encode (e ∷ es) n h =
    ground (arith, decode-encode_entries (e ∷ es) h, length-encode_entries (e ∷ es))

-- What a decoded list says of the blob it came from.
abbrev Encodes : List ℕ → List PosixAclEntry → Type 0
Encodes b es = (encode_entries es ≡ b) × All IsEntry es

encode-decode_entries :
    (b : List ℕ) (es : List PosixAclEntry)
    → All IsByte b
    → decode_entries b ≡ some es
    → Encodes b es
unfolding encode_entries decode_entries
encode-decode_entries [] es h e = let p : [] ≡ es = ground arith in subst (Encodes []) p (refl, tt)
encode-decode_entries (t0 ∷ t1 ∷ p0 ∷ p1 ∷ i0 ∷ i1 ∷ i2 ∷ i3 ∷ rest) es h e =
    by_tag (Bool-cases (is_tag (le16 t0 t1))) (Option-cases (decode_entries rest))
      (λ later. encode-decode_entries rest later h.1.1.1.1.1.1.1.1)
  where
    blob : List ℕ
    blob = t0 ∷ t1 ∷ p0 ∷ p1 ∷ i0 ∷ i1 ∷ i2 ∷ i3 ∷ rest

    head : PosixAclEntry
    head = record { tag = le16 t0 t1; perm = le16 p0 p1; id = le32 i0 i1 i2 i3 }

    by_tag :
        (is_tag (le16 t0 t1) ≡ true) ⊎ (is_tag (le16 t0 t1) ≡ false)
        → (decode_entries rest ≡ none) ⊎ ((l : List PosixAclEntry) × (decode_entries rest ≡ some l))
        → ((l : List PosixAclEntry) → decode_entries rest ≡ some l → Encodes rest l)
        → Encodes blob es
    by_tag (inr unknown) later ih = absurd (ground (arith, unknown))
    by_tag (inl known) (inl bad) ih = absurd (ground (arith, known, bad))
    by_tag (inl known) (inr (later, good)) ih =
        let p : head ∷ later ≡ es = ground (arith, known, good) in
        let r = ih later good in
        subst (Encodes blob) p (ground (arith, r.0), ((known, omega arith, omega arith), r.1))
encode-decode_entries _ es h e = absurd (ground arith)

non_empty-eq : (l es : List PosixAclEntry) → non_empty l ≡ some es → (l ≡ es) × (es ≢ [])
non_empty-eq [] es e = absurd (ground arith)
non_empty-eq (x ∷ l) es e = (ground arith, λ n. ground (arith, n))

-- A blob that decodePosixAcl accepts is the encoding of the non-empty list of well-formed entries
-- it returns.
pub encode-decode :
    (b : List ℕ) (es : List PosixAclEntry)
    → All IsByte b
    → decode_posix_acl b ≡ some es
    → (encode_posix_acl es ≡ b) × All IsEntry es × (es ≢ [])
unfolding encode_posix_acl decode_posix_acl
encode-decode (v0 ∷ v1 ∷ v2 ∷ v3 ∷ rest) es h e =
    by_rest (Option-cases (decode_entries rest)) (λ l. encode-decode_entries rest l h.1.1.1.1)
  where
    by_rest :
        (decode_entries rest ≡ none) ⊎ ((l : List PosixAclEntry) × (decode_entries rest ≡ some l))
        → ((l : List PosixAclEntry) → decode_entries rest ≡ some l → Encodes rest l)
        → (encode_posix_acl es ≡ v0 ∷ v1 ∷ v2 ∷ v3 ∷ rest) × All IsEntry es × (es ≢ [])
    by_rest (inl bad) back = absurd (ground (arith, bad))
    by_rest (inr (l, good)) back =
        let kept : non_empty l ≡ some es = ground (arith, good) in
        let version : le32 v0 v1 v2 v3 ≡ 2 = ground (arith, good) in
        let (same, some_entry) = non_empty-eq l es kept in
        let r = subst (Encodes rest) same (back l good) in
        (ground (arith, r.0, version), r.1, some_entry)
encode-decode _ es h e = absurd (ground arith)
