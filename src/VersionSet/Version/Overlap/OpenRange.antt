-- ===== src/VersionSet/Version/Overlap/OpenRange.antt =====
-- src/version_set/version_set.rs: a scan of level 0 over a range that is open at both ends.
use Prim.Native.Nat.{Ordering}
use pulsearc_db.Base.{[], ◌∷◌, none, some, ◌≡◌, refl, true}
use pulsearc_db.Comparator.{Comparator}
use pulsearc_db.VersionSet.FileMetaData.{FileMetaData}
use pulsearc_db.VersionSet.Version.{
  scan, rescan, overlapping, before_range, after_range, widen_begin, widen_end,
}
use pulsearc_db.VersionSet.Version.Overlap.{HasKeys, select}

-- Of two files of level 0, the second of which lies in front of the first, the scan of the range that
-- is open at both ends returns the first alone, though both meet that range: the first file closes the
-- range, without a restart.
pub overlapping_open :
    (user : Comparator) (f g : FileMetaData) (hf : HasKeys f) (hg : HasKeys g)
    → user.compare hg.limit hf.start ≡ Ordering.lt
    → (overlapping user true (f ∷ g ∷ []) none none ≡ some (f ∷ []))
      × (select user none none (f ∷ g ∷ []) ≡ f ∷ g ∷ [])
unfolding overlapping rescan scan before_range after_range widen_begin widen_end select
overlapping_open user f g hf hg front =
    (rw (hf.at_start, hf.at_limit, hg.at_start, hg.at_limit, front) refl, refl)
