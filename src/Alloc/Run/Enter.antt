-- ===== src/Alloc/Run/Enter.antt =====
-- Entering a word that was empty: the summaries over it.
use briefs_utils.Base.{ℕ, ◌/◌, ◌<◌, length}
use briefs_utils.Base.{◌≡◌, arith, some}
use briefs_utils.Base.{get_elem?-eq-get_or}
use briefs_utils.Alloc.{Alloc}
use briefs_utils.Alloc.Level.{raised}
use briefs_utils.Alloc.Summary.{lifted}
use briefs_utils.Alloc.Run.{enter_word}

-- `enter_word` sets the summary bit of word `w` and, over an empty summary word, its summary bit.
module _ (a : Alloc) (w : ℕ) (at1 : w / 64 < length a.l1) (at0 : w / 64 / 64 < length a.l0) where
  unfoldable pub entered : Alloc
  entered = record a { l1 = raised a.l1 w; l0 = lifted a.l0 a.l1 w }

  pub enter_word_lem : enter_word a w ≡ some entered
  unfolding enter_word entered raised lifted
  enter_word_lem =
      ground (
        arith,
        get_elem?-eq-get_or a.l1 (w / 64) 0 at1,
        get_elem?-eq-get_or a.l0 (w / 64 / 64) 0 at0,
      )
