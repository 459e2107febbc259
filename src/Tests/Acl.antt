-- ===== src/Tests/Acl.antt =====
-- An access list with an owner, a group, a mask and an other entry.
use briefs_utils.Base.{ℕ, ◌≡◌, ◌≢◌, refl, arith, some, List, [], ◌∷◌}
use briefs_utils.Base.Bytes.{All}
use briefs_utils.Base.Bits.{and_not}
use briefs_utils.Acl.{
  PosixAclEntry, decode_posix_acl, encode_posix_acl, create_mode_from_acl, decode_entries,
  masq_loop, masq_entry, perm_at,
}
use briefs_utils.Acl.Codec.{IsEntry, encode-decode}
use briefs_utils.Acl.Mode.{IsGranted, create_mode-IsGranted}

abbrev acl : List PosixAclEntry
acl =
    record { tag = 1; perm = 7; id = 0 }
    ∷ record { tag = 4; perm = 5; id = 0 }
    ∷ record { tag = 16; perm = 4; id = 0 }
    ∷ record { tag = 32; perm = 1; id = 0 }
    ∷ []

abbrev blob : List ℕ
blob = 2 ∷ 0 ∷ 0 ∷ 0 ∷ 1 ∷ 0 ∷ 6 ∷ 0 ∷ 0 ∷ 0 ∷ 0 ∷ 0 ∷ []

abbrev owner : List PosixAclEntry
owner = record { tag = 1; perm = 6; id = 0 } ∷ []

decode-blob : decode_posix_acl blob ≡ some owner
unfolding decode_posix_acl decode_entries
decode-blob = refl

encode-decode_example : (encode_posix_acl owner ≡ blob) × All IsEntry owner × (owner ≢ [])
encode-decode_example = encode-decode blob owner (ground arith) decode-blob

create-acl : create_mode_from_acl acl 438 ≡ some 416
unfolding create_mode_from_acl masq_loop masq_entry perm_at and_not
create-acl = refl

create_mode-IsGranted_example : IsGranted acl 438 416
create_mode-IsGranted_example = create_mode-IsGranted acl 438 416 create-acl
