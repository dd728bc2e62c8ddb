-- ===== src/Routes/Library/Laws.antt =====
-- What the page of a title in routes/library.ts promises of a download of it.
use circleftp_jellyfin.Base.{
  ℕ, ◌+◌, ◌⊎◌, ◌++◌, ◌≡◌, refl, sym, ap, ◌∙◌, List, [], ◌∷◌, Option, Bool, true, false, any,
  is_some, get_or_else, Bool-cases, inl, inr, map,
}
use circleftp_jellyfin.Base.Text.{Text}
use circleftp_jellyfin.Base.Result.{Result, ok, err, conflict, bad_request}
use circleftp_jellyfin.Circleftp.Types.{RawPost}
use circleftp_jellyfin.Circleftp.Client.{fetched}
use circleftp_jellyfin.Circleftp.Text.Names.{Platform, or_else}
use circleftp_jellyfin.Circleftp.Plan.{PlannedFile, DownloadPlan}
use circleftp_jellyfin.Circleftp.Plan.Build.{build_plan}
use circleftp_jellyfin.Downloads.Model.{Download, Downloads}
use circleftp_jellyfin.Downloads.Paths.{is_empty}
use circleftp_jellyfin.Downloads.Service.{
  State, CreateOptions, Keys, is_in_flight, create_download, new_download, new_files,
}
use circleftp_jellyfin.Routes.Downloads.{planned}
use circleftp_jellyfin.Routes.Library.{TitleDetailDto, latest_in_flight, sized, title_detail}

latest_in_flight-any :
    (post_id : ℕ) (ds : Downloads)
    → is_some (latest_in_flight post_id ds) ≡ any (is_in_flight post_id) ds
unfolding latest_in_flight
latest_in_flight-any post_id [] = refl
latest_in_flight-any post_id (d ∷ ds) = elim (Bool-cases (is_in_flight post_id d)) [
  | inl e ↦ rw (latest_in_flight, e) refl
  | inr e ↦ rw (latest_in_flight, e) (latest_in_flight-any post_id ds)
]

-- The paths of the files of the page, and of a job.
sized-paths :
    (sizes : Option (Text → Option ℕ)) (fs : List PlannedFile)
    → map (λ f. f.rel_path) (sized sizes fs) ≡ map (λ f. f.rel_path) fs
unfolding sized
sized-paths sizes [] = refl
sized-paths sizes (f ∷ fs) = ap (◌∷◌ f.rel_path) (sized-paths sizes fs)

new_files-paths :
    (key : ℕ → ℕ) (i : ℕ) (fs : List PlannedFile)
    → map (λ f. f.rel_path) (new_files key i fs) ≡ map (λ f. f.rel_path) fs
unfolding new_files
new_files-paths key i [] = refl
new_files-paths key i (f ∷ fs) = ap (◌∷◌ f.rel_path) (new_files-paths key (i + 1) fs)

-- How a creation fits the page: refused because the title is in flight, or for want of files, as
-- the page shows, or accepted with the folder and the paths of the page.
abbrev pub Fits : TitleDetailDto → State → Result State → Type 0
Fits t s (err e) =
    ((t.already_queued ≡ true) × (e ≡ conflict "already_queued"))
    ⊎ ((t.already_queued ≡ false) × (is_empty t.files ≡ true) × (e ≡ bad_request))
Fits t s (ok s') =
    (t.already_queued ≡ false)
    × ((row : Download) × (s'.downloads ≡ s.downloads ++ row ∷ [])
        × (row.folder_name ≡ t.folder_name)
        × (map (λ f. f.rel_path) row.files ≡ map (λ f. f.rel_path) t.files))

abbrev of_ok {ℓ κ} : {A : Type ℓ} {B : Type κ} → (A → B) → B → Result A → B
of_ok f other (ok a) = f a
of_ok f other (err e) = other

is_empty-sized :
    (sizes : Option (Text → Option ℕ)) (fs : List PlannedFile)
    → is_empty (sized sizes fs) ≡ is_empty fs
unfolding sized
is_empty-sized sizes [] = refl
is_empty-sized sizes (f ∷ fs) = refl

module _ (p : Platform) (encode : Text → Text) (o : CreateOptions)
    (sizes : Option (Text → Option ℕ)) (post : RawPost) (keys : Keys) (now : ℕ) (s : State) where
  -- The page of a title and a creation for it, by the same post and seasons, agree: the creation is
  -- refused as already queued exactly if the page shows a download in flight, refused for want of
  -- files exactly if the page shows none, and else makes a job with the folder and the paths shown.
  pub title_detail-Fits :
      (t : TitleDetailDto)
      → title_detail p encode o.post_id o.seasons sizes (fetched post) s.downloads ≡ ok t
      → Fits t s (create_download o (planned p o.seasons (fetched post)) keys now s)
  unfolding title_detail planned create_download
  title_detail-Fits t h = elim (Bool-cases (any (is_in_flight o.post_id) s.downloads)) [
    | inl e ↦ rw (create_download, e) (inl (queued e, refl))
    | inr e ↦ elim (Bool-cases (is_empty (build_plan p post o.seasons).files)) [
      | inl f ↦
          rw (create_download, e, f)
            (inr (queued e, ap is_empty files ∙ is_empty-sized sizes plan.files ∙ f, refl))
      | inr f ↦
          rw (create_download, e, f)
            (
              queued e,
              (
                new_download o title plan keys now,
                refl,
                sym folder,
                new_files-paths keys.file 0 plan.files
                    ∙ sym (ap (map (λ x. x.rel_path)) files ∙ sized-paths sizes plan.files),
              ),
            )
    ]
  ]
    where
      shown : t.already_queued ≡ is_some (latest_in_flight o.post_id s.downloads)
      shown = sym (ap (of_ok (λ d. d.already_queued) false) h)

      plan : DownloadPlan
      plan = build_plan p post o.seasons

      title : Text
      title = get_or_else (or_else post.name post.title) plan.folder

      files : t.files ≡ sized sizes plan.files
      files = sym (ap (of_ok (λ d. d.files) []) h)

      folder : t.folder_name ≡ plan.folder
      folder = sym (ap (of_ok (λ d. d.folder_name) []) h)

      queued : {b : Bool} → any (is_in_flight o.post_id) s.downloads ≡ b → t.already_queued ≡ b
      queued e = shown ∙ latest_in_flight-any o.post_id s.downloads ∙ e
