-- ===== src/Acl/Mode.antt =====
-- The modes that an ACL implies: what `createModeFromACL` grants, and `chmodAcl` against
-- `accessAclMode`.
use briefs_utils.Base.{ℕ, zero, suc, ◌+◌, ◌*◌, ◌/◌, ◌≤◌, ◌<◌, ◌==◌, ◌≡◌, refl, arith}
use briefs_utils.Base.{if◌then◌else◌, none, some, List, [], ◌∷◌}
use briefs_utils.Base.{inl, inr, ◌⊎◌, bit_and, bit_or, get_elem?, >>=-eq-some}
use briefs_utils.Base.Bits.{
  bit-shl, bit-mask_lt, bit-mask_ge, and_not, bit, bit-le, bit-bit_and, bit-bit_or, bit-and_not,
}
use briefs_utils.Base.Words.{u16}
use briefs_utils.Acl.{
  PosixAclEntry, Masq, masq_entry, masq_loop, class_idx, perm_at, create_mode_from_acl, not32,
}
use briefs_utils.Acl.{user_obj, other}

-- A step of the loop grants nothing new.
masq_entry-le :
    (mode i k : ℕ) (s s' : Masq) (e e' : PosixAclEntry)
    → masq_entry mode i s e ≡ some (e', s')
    → bit k s'.m ≤ bit k s.m
unfolding masq_entry
masq_entry-le mode i k s s' e e' h = ground (
  arith,
  bit-bit_and k s.m
      (bit_or (bit_and e.perm (u16 (bit_or (mode / 64) (not32 0o7))) * 64) (not32 0o700)),
  bit-bit_and k s.m (bit_or (bit_and e.perm (u16 (bit_or mode (not32 0o7)))) (not32 0o7)),
)

-- The loop as one step and the rest.
masq_loop-cons :
    (mode i : ℕ) (s : Masq) (e : PosixAclEntry) (es : List PosixAclEntry) {es' : List PosixAclEntry}
    {s'' : Masq}
    → masq_loop mode i s (e ∷ es) ≡ some (es', s'')
    → (e' : PosixAclEntry) × (rest : List PosixAclEntry) × (s' : Masq) × (masq_entry mode i s e
        ≡ some (e', s'))
      × (masq_loop mode (i + 1) s' es ≡ some (rest, s''))
unfolding masq_loop
masq_loop-cons mode i s e es h =
    let ((e', s'), first, later) = >>=-eq-some (masq_entry mode i s e) _ h in
    let ((rest, s2), tail, done) = >>=-eq-some (masq_loop mode (i + 1) s' es) _ later in
    (e', rest, s', first, ground (arith, tail, done))

masq_loop-le :
    (mode i k : ℕ) (s : Masq) (es : List PosixAclEntry) {es' : List PosixAclEntry} {s' : Masq}
    → masq_loop mode i s es ≡ some (es', s')
    → bit k s'.m ≤ bit k s.m
masq_loop-le mode i k s [] h = unfold masq_loop in ground arith
masq_loop-le mode i k s (e ∷ es) h =
    let (e', rest, s1, first, later) = masq_loop-cons mode i s e es h in
    omega (arith, masq_entry-le mode i k s s1 e e' first, masq_loop-le mode (i + 1) k s1 es later)

-- The classes of the mode that an entry limits itself: the bits `low` to `low + 2`.
owner_mask : (k : ℕ) → k < 3 → bit (k + 6) (not32 0o700) ≡ 0
unfolding bit
owner_mask zero h = refl
owner_mask (suc zero) h = refl
owner_mask (suc (suc zero)) h = refl
owner_mask (suc (suc (suc k))) h = absurd (omega arith)

other_mask : (k : ℕ) → k < 3 → bit k (not32 0o7) ≡ 0
unfolding bit
other_mask zero h = refl
other_mask (suc zero) h = refl
other_mask (suc (suc zero)) h = refl
other_mask (suc (suc (suc k))) h = absurd (omega arith)

-- The mode bits that an entry of tag `t` limits: bit `k` of its permission is bit `k + low`.
abbrev class_low : ℕ → ℕ
class_low t = if t == user_obj then 6 else 0

masq_entry_limits :
    (mode i k : ℕ) (s s' : Masq) (e e' : PosixAclEntry)
    → k < 3
    → (e.tag ≡ user_obj) ⊎ (e.tag ≡ other)
    → masq_entry mode i s e ≡ some (e', s')
    → bit (k + class_low e.tag) s'.m ≤ bit k e.perm
unfolding masq_entry
masq_entry_limits mode i k s s' e e' small (inl t) h =
    let owner = bit_and e.perm (u16 (bit_or (mode / 64) (not32 0o7))) in
    rw t (
      ground (
        arith,
        t,
        bit-bit_and (k + 6) s.m (bit_or (owner * 64) (not32 0o700)),
        bit-bit_or (k + 6) (owner * 64) (not32 0o700),
        bit-shl 6 k (k + 6) owner (omega arith),
        owner_mask k small,
        bit-bit_and k e.perm (u16 (bit_or (mode / 64) (not32 0o7))),
      ))
masq_entry_limits mode i k s s' e e' small (inr t) h =
    let others = bit_and e.perm (u16 (bit_or mode (not32 0o7))) in
    let here : k + 0 ≡ k = omega arith in
    rw (t, here)
      (ground (
        arith,
        t,
        bit-bit_and k s.m (bit_or others (not32 0o7)),
        bit-bit_or k others (not32 0o7),
        other_mask k small,
        bit-bit_and k e.perm (u16 (bit_or mode (not32 0o7))),
      ))

masq_loop_limits :
    (mode i k j : ℕ) (s : Masq) (es : List PosixAclEntry) {es' : List PosixAclEntry} {s' : Masq}
    (e : PosixAclEntry)
    → k < 3
    → (e.tag ≡ user_obj) ⊎ (e.tag ≡ other)
    → get_elem? es j ≡ some e
    → masq_loop mode i s es ≡ some (es', s')
    → bit (k + class_low e.tag) s'.m ≤ bit k e.perm
masq_loop_limits mode i k j s [] e small t at h = absurd (ground arith)
masq_loop_limits mode i k zero s (x ∷ es) {s'} e small t at h =
    let (x', rest, s1, first, later) = masq_loop-cons mode i s x es h in
    let same : x ≡ e = ground arith in
    omega (
      arith,
      masq_entry_limits mode i k s s1 e x' small t (rw same at first),
      masq_loop-le mode (i + 1) (k + class_low e.tag) s1 es later,
    )
masq_loop_limits mode i k (suc j) s (x ∷ es) e small t at h =
    let (x', rest, s1, first, later) = masq_loop-cons mode i s x es h in
    masq_loop_limits mode (i + 1) k j s1 es e small t at later

-- The last step of `createModeFromACL`, after the loop left `m`.
masq_result : ℕ → ℕ → ℕ → ℕ
masq_result mode m x = bit_or (and_not mode 0o777) (bit_and m x)

masq_result_bits :
    (mode m x k : ℕ)
    → bit k m ≤ bit k mode
    → (bit k (masq_result mode m x) ≤ bit k mode)
      × (9 ≤ k → bit k (masq_result mode m x) ≡ bit k mode)
      × (k < 9 → bit k (masq_result mode m x) ≤ bit k m)
unfolding masq_result
masq_result_bits mode m x k h = (
  omega (
    arith,
    bit-bit_or k (and_not mode 0o777) (bit_and m x),
    bit-and_not k mode 0o777,
    bit-bit_and k m x,
  ),
  (λ p. omega (
    arith,
    bit-bit_or k (and_not mode 0o777) (bit_and m x),
    bit-and_not k mode 0o777,
    bit-bit_and k m x,
    bit-mask_ge k 9 p,
  )),
  (λ p. omega (
    arith,
    bit-bit_or k (and_not mode 0o777) (bit_and m x),
    bit-and_not k mode 0o777,
    bit-bit_and k m x,
    bit-mask_lt k 9 p,
    bit-le k mode,
  )),
)

create_mode-result :
    (es : List PosixAclEntry) (mode : ℕ) {r : ℕ}
    → create_mode_from_acl es mode ≡ some r
    → (es' : List PosixAclEntry) × (s : Masq) × (x : ℕ) × (masq_loop mode 0
          (record { m = mode; group_idx = none; mask_idx = none })
          es
        ≡ some (es', s))
      × (masq_result mode s.m x ≡ r)
unfolding create_mode_from_acl masq_result
create_mode-result es mode h =
    let ((es', s), looped, later) = >>=-eq-some (masq_loop mode 0 _ es) _ h in
    let (gi, chosen, done) = >>=-eq-some (class_idx s.mask_idx s.group_idx) _ later in
    (
      es',
      s,
      bit_or (bit_and (perm_at es' gi) (u16 (bit_or (s.m / 8) (not32 0o7))) * 8) (not32 0o70),
      looped,
      ground (arith, done),
    )

-- What a default ACL lets a create keep of the mode that was asked for.
pub record IsGranted (es : List PosixAclEntry) (mode r : ℕ) : Type 0 where
  -- No bit is added.
  pub only_asked : (k : ℕ) → bit k r ≤ bit k mode
  -- The bits above the permissions (setuid, setgid, sticky) pass through.
  pub others_kept : (k : ℕ) → 9 ≤ k → bit k r ≡ bit k mode
  -- An owner or other entry limits its three bits.
  pub limited :
      (j k : ℕ) (e : PosixAclEntry)
      → get_elem? es j ≡ some e
      → (e.tag ≡ user_obj) ⊎ (e.tag ≡ other)
      → k < 3
      → bit (k + class_low e.tag) r ≤ bit k e.perm

-- When createModeFromACL answers, the mode has no bit that was not asked for, keeps the bits above
-- the permissions, and has no owner or other bit that an entry of that class withholds.
pub create_mode-IsGranted :
    (es : List PosixAclEntry) (mode r : ℕ)
    → create_mode_from_acl es mode ≡ some r
    → IsGranted es mode r
create_mode-IsGranted es mode r h = from_loop (create_mode-result es mode h)
  where
    from_loop :
        (es' : List PosixAclEntry) × (s : Masq) × (x : ℕ) × (masq_loop mode 0
              (record { m = mode; group_idx = none; mask_idx = none })
              es
            ≡ some (es', s))
          × (masq_result mode s.m x ≡ r)
        → IsGranted es mode r
    from_loop (es', s, x, looped, done) = rw (← done) (record {
      only_asked = λ k. (masq_result_bits mode s.m x k (masq_loop-le mode 0 k _ es looped)).0;
      others_kept = λ k p. (masq_result_bits mode s.m x k (masq_loop-le mode 0 k _ es looped)).1 p;
      limited = λ j k e at t small.
          let bound : k + class_low e.tag < 9 = ground arith in
          omega (
            arith,
            (masq_result_bits mode s.m x (k + class_low e.tag)
                  (masq_loop-le mode 0 (k + class_low e.tag) _ es looped)).2
                bound,
            masq_loop_limits mode 0 k j _ es e small t at looped,
          );
    })
