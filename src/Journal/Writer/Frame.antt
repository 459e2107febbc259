-- ===== src/Journal/Writer/Frame.antt =====
-- What the journal's steps leave alone: the calls out of briefs/journal_write.go only log, and a
-- checkpoint and a commit do not touch the block under construction or the place for it.
use briefs_utils.Base.{if◌then◌else◌, Bool, true, false, none, some, List, [], ◌∷◌, ◌≡◌, refl}
use briefs_utils.Base.Bytes.{All}
use briefs_utils.Journal.State.{JournalError, Journal, Outcome, Op, proceed, run_all, when}

-- A predicate that a step keeps, however it ends.
abbrev pub Keeps : (Journal → Type 0) → Op → Type 0
Keeps P f = (j : Journal) → P j → P (f j).0

pub proceed-Keeps :
    (P : Journal → Type 0) (o : Outcome) (g : Op) → P o.0 → Keeps P g → P (proceed o g).0
unfolding proceed
proceed-Keeps P (j, none) g p k = k j p
proceed-Keeps P (j, some e) g p k = p

pub run_all-Keeps : (P : Journal → Type 0) (fs : List Op) → All (Keeps P) fs → Keeps P (run_all fs)
unfolding run_all
run_all-Keeps P [] k j p = p
run_all-Keeps P (f ∷ fs) (kf, kfs) j p =
    proceed-Keeps P (f j) (run_all fs) (kf j p) (run_all-Keeps P fs kfs)

pub when-Keeps : (P : Journal → Type 0) (b : Bool) (f : Op) → Keeps P f → Keeps P (when b f)
when-Keeps P true f k j p = k j p
when-Keeps P false f k j p = p

-- The same for the steps that end without an error, with another predicate after them.
abbrev pub Ensures : (Journal → Type 0) → Op → (Journal → Type 0) → Type 0
Ensures P f Q = (j : Journal) → P j → (f j).1 ≡ none → Q (f j).0

pub proceed-Ensures :
    (Q R : Journal → Type 0) (o : Outcome) (g : Op)
    → (o.1 ≡ none → Q o.0)
    → Ensures Q g R
    → (proceed o g).1 ≡ none
    → R (proceed o g).0
unfolding proceed
proceed-Ensures Q R (j, none) g q k e = k j (q refl) e
proceed-Ensures Q R (j, some x) g q k e = cc

-- Behind a test that refuses.
pub guard-Ensures :
    (Q : Journal → Type 0) (b : Bool) (j : Journal) (e : JournalError) (o : Outcome)
    → (o.1 ≡ none → Q o.0)
    → (if b then (j, some e) else o).1 ≡ none
    → Q (if b then (j, some e) else o).0
guard-Ensures Q true j e o k s = cc
guard-Ensures Q false j e o k s = k s

-- The same at one state, with what the test said.
pub when_at :
    (Q : Journal → Type 0) (b : Bool) (f : Op) (j : Journal)
    → (b ≡ true → (f j).1 ≡ none → Q (f j).0)
    → (b ≡ false → Q j)
    → (when b f j).1 ≡ none
    → Q (when b f j).0
when_at Q true f j k l s = k refl s
when_at Q false f j k l s = l refl

pub when-Ensures :
    (P Q : Journal → Type 0) (b : Bool) (f : Op)
    → (b ≡ true → Ensures P f Q)
    → (b ≡ false → (j : Journal) → P j → Q j)
    → Ensures P (when b f) Q
when-Ensures P Q true f k l j p s = k refl j p s
when-Ensures P Q false f k l j p s = l refl j p

-- Steps that take a predicate from each place to the next.
pub data Leads : (Journal → Type 0) → List Op → (Journal → Type 0) → Type 1 where
  done : {P : Journal → Type 0} → Leads P [] P
  step :
      {P Q R : Journal → Type 0} {f : Op} {fs : List Op}
      → Ensures P f Q
      → Leads Q fs R
      → Leads P (f ∷ fs) R

pub run_all-Ensures :
    (P R : Journal → Type 0) (fs : List Op) → Leads P fs R → Ensures P (run_all fs) R
unfolding run_all
run_all-Ensures P R fs done j p e = p
run_all-Ensures P R fs (step {Q = Q} {f = f} {fs = gs} k l) j p e =
    proceed-Ensures Q R (f j) (run_all gs) (k j p) (run_all-Ensures Q R gs l) e

pub Keeps-Ensures : (P : Journal → Type 0) (f : Op) → Keeps P f → Ensures P f P
Keeps-Ensures P f k j p e = k j p
