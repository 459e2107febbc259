-- ===== src/Acl.antt =====
-- POSIX ACL blobs and the modes that they imply: fuse/posix_acl.go.
-- A blob is its list of bytes. The entries that Go changes in place are returned; an index that Go
-- starts at -1 is an `Option`.
pub mod Codec
pub mod Mode
use briefs_utils.Base.{ℕ, zero, suc, ◌+◌, ◌-◌, ◌*◌, ◌/◌, ◌%◌, ◌^◌, bit_and, bit_or, ◌==◌, ltb}
use briefs_utils.Base.{
  if◌then◌else◌, Bool, true, false, ◌||◌, Option, none, some, List, [], ◌∷◌, ◌++◌,
}
use briefs_utils.Base.{length, ◌>>=◌, not}
use briefs_utils.Base.Bits.{and_not}
use briefs_utils.Base.Bytes.{le16, le32, put_le16, put_le32}
use briefs_utils.Base.Words.{u16}

abbrev pub user_obj : ℕ
user_obj = 0x01

abbrev pub user : ℕ
user = 0x02

abbrev pub group_obj : ℕ
group_obj = 0x04

abbrev pub group : ℕ
group = 0x08

abbrev pub mask : ℕ
mask = 0x10

abbrev pub other : ℕ
other = 0x20

pub record PosixAclEntry : Type 0 where
  pub tag : ℕ
  pub perm : ℕ
  pub id : ℕ

abbrev pub is_tag : ℕ → Bool
is_tag t =
    t == user_obj || (t == user || (t == group_obj || (t == group || (t == mask || t == other))))

-- The loop over the entries; the last clause is an input that is no multiple of 8 bytes long, which
-- the caller has refused.
unfoldable pub decode_entries : List ℕ → Option (List PosixAclEntry)
decode_entries [] = some []
decode_entries (t0 ∷ t1 ∷ p0 ∷ p1 ∷ i0 ∷ i1 ∷ i2 ∷ i3 ∷ rest) =
    let later = decode_entries rest in
    let e : PosixAclEntry = record { tag = le16 t0 t1; perm = le16 p0 p1; id = le32 i0 i1 i2 i3 } in
    if is_tag (le16 t0 t1) then (later >>= λ es. some (e ∷ es)) else none
decode_entries _ = none

-- `len(entries) == 0` is refused.
abbrev pub non_empty : List PosixAclEntry → Option (List PosixAclEntry)
non_empty [] = none
non_empty (e ∷ es) = some (e ∷ es)

unfoldable pub decode_posix_acl : List ℕ → Option (List PosixAclEntry)
decode_posix_acl (v0 ∷ v1 ∷ v2 ∷ v3 ∷ rest) =
    if not (le32 v0 v1 v2 v3 == 2)
    then none
    else if not (length rest % 8 == 0)
    then none
    else (decode_entries rest >>= non_empty)
decode_posix_acl _ = none

pub encode_entries : List PosixAclEntry → List ℕ
encode_entries [] = []
encode_entries (e ∷ es) = put_le16 e.tag (put_le16 e.perm (put_le32 e.id (encode_entries es)))

pub encode_posix_acl : List PosixAclEntry → List ℕ
encode_posix_acl es = put_le32 2 (encode_entries es)

-- The complement of a mask in a uint32.
abbrev pub not32 : ℕ → ℕ
not32 x = 2 ^ 32 - 1 - x

-- What the loop of `createModeFromACL` carries: the mode so far and the indices of the entries of
-- the group class.
pub record Masq : Type 0 where
  pub m : ℕ
  pub group_idx : Option ℕ
  pub mask_idx : Option ℕ

-- The switch on one entry, at index `i`; `none` is an unknown tag.
unfoldable pub masq_entry : ℕ → ℕ → Masq → PosixAclEntry → Option (PosixAclEntry × Masq)
masq_entry mode i s e =
    let owner = bit_and e.perm (u16 (bit_or (mode / 64) (not32 0o7))) in
    let others = bit_and e.perm (u16 (bit_or mode (not32 0o7))) in
    if e.tag == user_obj
    then some (
      record e { perm = owner },
      record s { m = bit_and s.m (bit_or (owner * 64) (not32 0o700)) },
    )
    else if (e.tag == user || e.tag == group)
    then some (e, s)
    else if e.tag == group_obj
    then some (e, record s { group_idx = some i })
    else if e.tag == other
    then some (record e { perm = others }, record s { m = bit_and s.m (bit_or others (not32 0o7)) })
    else if e.tag == mask
    then some (e, record s { mask_idx = some i })
    else none

unfoldable pub masq_loop : ℕ → ℕ → Masq → List PosixAclEntry → Option (List PosixAclEntry × Masq)
masq_loop mode i s [] = some ([], s)
masq_loop mode i s (e ∷ es) = do
  (e', s') ← masq_entry mode i s e
  (es', s'') ← masq_loop mode (i + 1) s' es
  some (e' ∷ es', s'')

-- `gi := maskIdx; if gi < 0 { gi = groupIdx }`
abbrev pub class_idx : Option ℕ → Option ℕ → Option ℕ
class_idx (some k) gi = some k
class_idx none gi = gi

unfoldable pub perm_at : List PosixAclEntry → ℕ → ℕ
perm_at [] i = 0
perm_at (e ∷ es) zero = e.perm
perm_at (e ∷ es) (suc i) = perm_at es i

unfoldable pub create_mode_from_acl : List PosixAclEntry → ℕ → Option ℕ
create_mode_from_acl es mode = do
  (es', s) ← masq_loop mode 0 (record { m = mode; group_idx = none; mask_idx = none }) es
  gi ← class_idx s.mask_idx s.group_idx
  let perm = bit_and (perm_at es' gi) (u16 (bit_or (s.m / 8) (not32 0o7)))
  some (bit_or (and_not mode 0o777) (bit_and s.m (bit_or (perm * 8) (not32 0o70))))

pub access_acl_loop : ℕ → List PosixAclEntry → ℕ
access_acl_loop mode [] = mode
access_acl_loop mode (e ∷ es) =
    let perm = bit_and e.perm 0o7 in
    access_acl_loop
      (if e.tag == user_obj
        then bit_or mode (perm * 64)
        else if e.tag == group_obj
        then bit_or mode (perm * 8)
        else if e.tag == other
        then bit_or mode perm
        else if e.tag == mask
        then bit_or (and_not mode 0o70) (perm * 8)
        else mode)
      es

pub access_acl_mode : List PosixAclEntry → ℕ
access_acl_mode es = access_acl_loop 0 es

abbrev pub chmod_entry : ℕ → PosixAclEntry → PosixAclEntry
chmod_entry mode e =
    if e.tag == user_obj
    then record e { perm = u16 (bit_and mode 0o700 / 64) }
    else if e.tag == other
    then record e { perm = u16 (bit_and mode 0o7) }
    else e

-- The entries after the loop of `chmodAcl`, with the last GROUP_OBJ and MASK indices.
pub chmod_loop :
    ℕ → ℕ → Option ℕ → Option ℕ → List PosixAclEntry → List PosixAclEntry × Option ℕ × Option ℕ
chmod_loop mode i gi mi [] = ([], gi, mi)
chmod_loop mode i gi mi (e ∷ es) =
    let (es', gi', mi') =
      chmod_loop mode (i + 1) (if e.tag == group_obj then some i else gi)
        (if e.tag == mask then some i else mi) es in
    (chmod_entry mode e ∷ es', gi', mi')

pub set_perm : List PosixAclEntry → ℕ → ℕ → List PosixAclEntry
set_perm [] i p = []
set_perm (e ∷ es) zero p = record e { perm = p } ∷ es
set_perm (e ∷ es) (suc i) p = e ∷ set_perm es i p

pub chmod_acl : List PosixAclEntry → ℕ → List PosixAclEntry × Bool
chmod_acl es mode =
    let (es', gi, mi) = chmod_loop mode 0 none none es in
    elim (class_idx mi gi) [
      | none ↦ (es', false)
      | some k ↦ (set_perm es' k (u16 (bit_and mode 0o70 / 8)), true)
    ]
