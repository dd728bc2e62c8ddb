-- ===== src/Circleftp/Search/Tests.antt =====
-- The theorems on circleftp/search.ts at concrete inputs.
use circleftp_jellyfin.Base.{ℕ, ◌≡◌, refl, List, [], ◌∷◌, Option, none, some, map, take}
use circleftp_jellyfin.Base.Text.{Text, codes, is_space}
use circleftp_jellyfin.Circleftp.Types.{RawPost, nothing}
use circleftp_jellyfin.Circleftp.Text.Names.{normalize_text}
use circleftp_jellyfin.Circleftp.Search.{
  rank, result_of, limit_of, scored_from, candidates, main_category, to_search_result,
}
use circleftp_jellyfin.Circleftp.Search.Laws.{chosen, rank-bands}

abbrev post : ℕ → Text → Text → RawPost
post id name title = record {
  id = some id;
  title = some title;
  name = some name;
  type = some (codes "singleVideo");
  year = none;
  quality = none;
  watch_time = none;
  meta_data = none;
  image = none;
  image_sm = none;
  categories = some (
      some (record { name = some (codes "Featured Post"); type = some (codes "main") })
      ∷ none
      ∷ some (record { name = some (codes "Action"); type = some (codes "main") })
      ∷ []);
  content = nothing;
}

-- Two weak matches, one in the title, and one that is exact.
abbrev found : List (Option RawPost)
found =
    some (post 1 (codes "The Bat") (codes "The Bat (1959)"))
    ∷ none
    ∷ some (post 2 (codes "Gotham") (codes "The Batman stories"))
    ∷ some (post 3 (codes "The Batman") (codes "The Batman (2022)"))
    ∷ []

genre : main_category (post 1 [] []) ≡ codes "Action"
unfolding main_category
genre = refl

ranked :
    map (λ r. r.post_id) (rank (λ t. t) (codes "the batman") none none found) ≡ some 3 ∷ some 2 ∷ []
unfolding rank is_space to_search_result
ranked = refl

rank-bands_example :
    rank (λ t. t) (codes "the batman") none (some 1) found
    ≡ map (result_of (λ t. t)) (
        take
          (limit_of (some 1))
          (chosen (scored_from 0 (normalize_text (codes "the batman")) (candidates none found))))
rank-bands_example = rank-bands (λ t. t) (codes "the batman") none (some 1) found
