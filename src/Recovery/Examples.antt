-- ===== src/Recovery/Examples.antt =====
-- The theorem about reconciliation at a concrete restore.
use opensource_project_intel.Base.{◌≡◌, refl, false, ◌&&◌, not, List, [], ◌∷◌}
use opensource_project_intel.Base.Lists.{contains}
use opensource_project_intel.Base.Text.{Text, codes, text_eq}
use opensource_project_intel.Recovery.{Object, clean, reconcile, lookup, is_none, keys_of}
use opensource_project_intel.Recovery.Names.{IsSorted, has_other, reconcile-names}

abbrev manifest : List Object
manifest =
    record { key = codes "b"; sha256 = codes "1" }
    ∷ record { key = codes "a"; sha256 = codes "2" }
    ∷ record { key = codes "c"; sha256 = codes "3" }
    ∷ []

abbrev restored : List (Text × Text)
restored = (codes "d", codes "4") ∷ (codes "c", codes "0") ∷ []

missing_sorted : (reconcile manifest restored).missing ≡ codes "a" ∷ codes "b" ∷ []
unfolding reconcile
missing_sorted = refl

restored_unclean : clean (reconcile manifest restored) ≡ false
unfolding reconcile clean
restored_unclean = refl

reconcile-names_example :
    (contains (reconcile manifest restored).missing (codes "a")
      ≡ (contains (keys_of manifest) (codes "a") && is_none (lookup restored (codes "a"))))
    × (contains (reconcile manifest restored).mismatched (codes "a")
        ≡ has_other restored manifest (codes "a"))
    × (contains (reconcile manifest restored).orphaned (codes "a") ≡ (
        not (is_none (lookup restored (codes "a")))
        && not (contains (keys_of manifest) (codes "a"))))
    × IsSorted (reconcile manifest restored).missing
    × IsSorted (reconcile manifest restored).mismatched
    × IsSorted (reconcile manifest restored).orphaned
reconcile-names_example = reconcile-names manifest restored (codes "a")
