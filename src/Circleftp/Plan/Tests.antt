-- ===== src/Circleftp/Plan/Tests.antt =====
-- The theorems on circleftp/plan.ts at concrete inputs.
use circleftp_jellyfin.Base.{◌≡◌, refl, [], ◌∷◌, none, map}
use circleftp_jellyfin.Base.Text.{Text, codes}
use circleftp_jellyfin.Circleftp.Plan.{
  PlannedFile, deduplicate_paths, suffix_path, last_index_of, decimal, digits_from,
}
use circleftp_jellyfin.Circleftp.Plan.Duplicates.{
  deduplicate_paths-eq_self, deduplicate_paths-collision,
}

abbrev planned : Text → PlannedFile
planned path = record {
  url = codes "http://host/a.mkv";
  rel_path = path;
  label = codes "a";
  season = none;
  episode = none;
}

with_extension : suffix_path (codes "S 1/a.mkv") 12 ≡ codes "S 1/a (12).mkv"
unfolding suffix_path last_index_of decimal digits_from
with_extension = refl

without_extension : suffix_path (codes "S.1/a") 2 ≡ codes "S.1/a (2)"
unfolding suffix_path last_index_of decimal digits_from
without_extension = refl

different_paths :
    deduplicate_paths (planned (codes "a") ∷ planned (codes "b") ∷ [])
    ≡ planned (codes "a") ∷ planned (codes "b") ∷ []
different_paths =
    deduplicate_paths-eq_self (planned (codes "a") ∷ planned (codes "b") ∷ []) (refl, (refl, tt))

deduplicate_paths-collision_example :
    map
      (λ x. x.rel_path)
      (deduplicate_paths
        (planned (codes "a.mkv") ∷ planned (codes "a.mkv") ∷ planned (codes "a (2).mkv") ∷ []))
    ≡ codes "a.mkv" ∷ codes "a (2).mkv" ∷ codes "a (2).mkv" ∷ []
unfolding suffix_path last_index_of decimal digits_from
deduplicate_paths-collision_example =
    deduplicate_paths-collision (planned (codes "a.mkv")) (planned (codes "a.mkv"))
      (planned (codes "a (2).mkv")) refl refl refl
