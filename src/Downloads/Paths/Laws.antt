-- ===== src/Downloads/Paths/Laws.antt =====
-- Where `resolveDestination` lets a file be written.
use circleftp_jellyfin.Base.{
  ℕ, ◌≤◌, ◌≡◌, ◌≢◌, refl, subst, sym, ap, ◌∙◌, List, [], ◌∷◌, ◌++◌, true, false, ◌||◌, map, arith,
  if◌then◌else◌, ◌==◌, All, All-append, append_assoc, append-nil, Bool-cases, inl, inr, length,
}
use mathlib.Core.List.{reverse, reverse-cons}
use circleftp_jellyfin.Base.Text.{Text, codes, text_eq, text_eq_iff, starts_with, is_space}
use circleftp_jellyfin.Base.Result.{ok, err, bad_request}
use circleftp_jellyfin.Circleftp.Text.{sanitize, is_illegal, is_edge}
use circleftp_jellyfin.Circleftp.Text.Laws.{IsComponent, IsLegal, sanitize-IsComponent}
use circleftp_jellyfin.Downloads.Paths.{
  split_slash, render, render_path, join_arguments, enter, enter_all, path_resolve, safe_segments,
  is_empty, resolve_destination,
}

-- A directory name as a path holds it: no separator, and not "", "." or "..".
pub record IsSegment (s : Text) : Type 0 where
  pub nonempty : s ≢ []
  pub no_slash : All (λ c. c ≢ b'/') s
  pub not_dot : s ≢ codes "."
  pub not_dots : s ≢ codes ".."

not_slash_of_legal : (c : ℕ) → is_illegal c ≡ false → c ≢ b'/'
unfolding is_illegal
not_slash_of_legal c h e = ground arith

IsLegal-no_slash : (s : Text) → IsLegal s → All (λ c. c ≢ b'/') s
IsLegal-no_slash [] h = tt
IsLegal-no_slash (c ∷ s) (p, h) = (not_slash_of_legal c p, IsLegal-no_slash s h)

is_edge-dot : is_edge b'.' ≡ true
unfolding is_space
is_edge-dot = refl

IsComponent-IsSegment : (s : Text) → IsComponent s → IsSegment s
IsComponent-IsSegment [] k = absurd (k.nonempty refl)
IsComponent-IsSegment (c ∷ s) k = record {
  nonempty = k.nonempty;
  no_slash = IsLegal-no_slash (c ∷ s) k.legal;
  not_dot = λ e. ground (arith, k.head, is_edge-dot);
  not_dots = λ e. ground (arith, k.head, is_edge-dot);
}

-- Splitting at "/" undoes `render`.
split_slash-render :
    (s : Text) (ss : List Text)
    → All (λ c. c ≢ b'/') s
    → All IsSegment ss
    → split_slash (s ++ render ss) ≡ s ∷ ss
unfolding split_slash
split_slash-render [] [] h k = refl
split_slash-render [] (t ∷ ts) h (p, k) = rw (split_slash-render t ts p.no_slash k)
split_slash-render (c ∷ s) ss (p, h) k = rw (split_slash-render s ss h k) (ground arith)

enter_of_IsSegment : (stack : List Text) (s : Text) → IsSegment s → enter stack s ≡ s ∷ stack
unfolding enter
enter_of_IsSegment stack s k = ground (
  arith,
  text_eq_iff s [],
  text_eq_iff s (codes "."),
  text_eq_iff s (codes ".."),
  k.nonempty,
  k.not_dot,
  k.not_dots,
)

enter_all_of_IsSegment :
    (stack ss : List Text) → All IsSegment ss → enter_all stack ss ≡ reverse stack ++ ss
unfolding enter_all
enter_all_of_IsSegment stack [] h = sym (append-nil _)
enter_all_of_IsSegment stack (s ∷ ss) (k, h) =
    rw (enter_of_IsSegment stack s k)
      (rw (enter_all_of_IsSegment (s ∷ stack) ss h) (rw (reverse-cons s stack, append_assoc) refl))

render-append : (ss ts : List Text) → render (ss ++ ts) ≡ render ss ++ render ts
render-append [] ts = refl
render-append (s ∷ ss) ts =
    ap (◌∷◌ b'/') (rw (render-append ss ts) (sym (append_assoc s (render ss) (render ts))))

join_arguments_of_IsSegment :
    (acc : Text) (ss : List Text) → All IsSegment ss → join_arguments acc ss ≡ acc ++ render ss
unfolding join_arguments
join_arguments_of_IsSegment acc [] h = sym (append-nil acc)
join_arguments_of_IsSegment acc ([] ∷ ss) (k, h) = absurd (k.nonempty refl)
join_arguments_of_IsSegment acc ((c ∷ s) ∷ ss) (k, h) =
    let plain : (c == b'/') ≡ false = ground (arith, k.no_slash) in
    rw plain (
      join_arguments_of_IsSegment (acc ++ (b'/' ∷ c ∷ s)) ss h
      ∙ append_assoc acc (b'/' ∷ c ∷ s) (render ss))

-- `path.resolve` at a plain root and plain segments joins them.
path_resolve_of_IsSegment :
    (r : Text) (rs ss : List Text)
    → All IsSegment (r ∷ rs)
    → All IsSegment ss
    → path_resolve (render (r ∷ rs)) ss ≡ render ((r ∷ rs) ++ ss)
unfolding path_resolve
path_resolve_of_IsSegment r rs ss h k =
    let all = (r ∷ rs) ++ ss in
    let plain = All-append IsSegment (r ∷ rs) ss h k in
    ap (λ t. render_path (enter_all [] (split_slash t)))
      (join_arguments_of_IsSegment (render (r ∷ rs)) ss k ∙ sym (render-append (r ∷ rs) ss))
    ∙ ap (λ l. render_path (enter_all [] l)) (split_slash-render [] all tt plain)
    ∙ ap render_path (enter_all_of_IsSegment [] all plain)

file_IsComponent : IsComponent (codes "file")
unfolding is_illegal is_space
file_IsComponent = record {
  nonempty = λ e. cc;
  legal = (refl, (refl, (refl, (refl, tt))));
  head = refl;
  last = refl;
}

pub untitled_IsComponent : IsComponent (codes "untitled")
unfolding is_illegal is_space
untitled_IsComponent = record {
  nonempty = λ e. cc;
  legal = (refl, (refl, (refl, (refl, (refl, (refl, (refl, (refl, tt))))))));
  head = refl;
  last = refl;
}

sanitized-IsSegment : (ss : List Text) → All IsSegment (map (λ s. sanitize s (codes "file")) ss)
sanitized-IsSegment [] = tt
sanitized-IsSegment (s ∷ ss) = (
  IsComponent-IsSegment _ (sanitize-IsComponent s (codes "file") file_IsComponent),
  sanitized-IsSegment ss,
)

pub safe_segments-IsSegment : (rel_path : Text) → All IsSegment (safe_segments rel_path)
unfolding safe_segments
safe_segments-IsSegment rel_path = sanitized-IsSegment _

pub folder-IsSegment : (folder : Text) → IsSegment (sanitize folder (codes "untitled"))
folder-IsSegment folder =
    IsComponent-IsSegment _ (sanitize-IsComponent folder (codes "untitled") untitled_IsComponent)

starts_with-append : (s t : Text) → starts_with (s ++ t) s ≡ true
starts_with-append [] [] = refl
starts_with-append [] (c ∷ t) = refl
starts_with-append (c ∷ s) t = ground (arith, starts_with-append s t)

-- The destination's own check passes for what is rendered below the root.
starts_with-render :
    (rs : List Text) (s : Text) (ss : List Text)
    → starts_with (render (rs ++ s ∷ ss)) (render rs ++ codes "/") ≡ true
starts_with-render rs s ss =
    subst (λ t. starts_with t (render rs ++ codes "/") ≡ true)
      (append_assoc (render rs) (codes "/") (s ++ render ss) ∙ sym (render-append rs (s ∷ ss)))
      (starts_with-append (render rs ++ codes "/") (s ++ render ss))

length_of_nonempty : (ss : List Text) → is_empty ss ≡ false → 1 ≤ length ss
length_of_nonempty [] e = cc
length_of_nonempty (s ∷ ss) e = omega arith

module _ (r : Text) (rs : List Text) (plain : All IsSegment (r ∷ rs)) where
  pub resolve_destination_below :
      (folder rel_path : Text)
      → resolve_destination (render (r ∷ rs)) folder rel_path ≡ (
          if is_empty (safe_segments rel_path)
          then err bad_request
          else ok
              (render ((r ∷ rs) ++ sanitize folder (codes "untitled") ∷ safe_segments rel_path)))
  unfolding resolve_destination
  resolve_destination_below folder rel_path =
      elim (Bool-cases (is_empty (safe_segments rel_path))) [
        | inl e ↦ rw e
        | inr e ↦
            rw
              (
                e,
                path_resolve_of_IsSegment r rs
                    (sanitize folder (codes "untitled") ∷ safe_segments rel_path) plain
                    (folder-IsSegment folder, safe_segments-IsSegment rel_path),
              )
              (ground (
                arith,
                starts_with-render (r ∷ rs) (sanitize folder (codes "untitled"))
                    (safe_segments rel_path),
              ))
      ]

  -- A destination lies strictly below the media root, at least two levels down, and every
  -- segment below the root is a plain name: no separator, not empty, and no "." or "..".
  pub resolve_destination-IsSegment :
      (folder rel_path : Text) {d : Text}
      → resolve_destination (render (r ∷ rs)) folder rel_path ≡ ok d
      → (ss : List Text) × (d ≡ render ((r ∷ rs) ++ ss)) × All IsSegment ss × (2 ≤ length ss)
  resolve_destination-IsSegment folder rel_path h =
      let name = sanitize folder (codes "untitled") in
      elim (Bool-cases (is_empty (safe_segments rel_path))) [
        | inl e ↦ cc (resolve_destination_below folder rel_path, e)
        | inr e ↦ (
          name ∷ safe_segments rel_path,
          ground (arith, resolve_destination_below folder rel_path),
          (folder-IsSegment folder, safe_segments-IsSegment rel_path),
          omega (arith, length_of_nonempty (safe_segments rel_path) e),
        )
      ]

-- Below the root "/" `path.resolve` gives the same, but the check asks for a path that starts with "//".
path_resolve_of_root :
    (s : Text) (ss : List Text)
    → All IsSegment (s ∷ ss)
    → path_resolve (render_path []) (s ∷ ss) ≡ render (s ∷ ss)
unfolding path_resolve split_slash enter_all enter
path_resolve_of_root s ss h =
    ap (λ t. render_path (enter_all [] (split_slash t)))
      (join_arguments_of_IsSegment (render_path []) (s ∷ ss) h)
    ∙ ap (λ l. render_path (enter_all [] ([] ∷ l))) (split_slash-render [] (s ∷ ss) tt h)
    ∙ ap render_path (enter_all_of_IsSegment [] (s ∷ ss) h)

not_under_root :
    (s : Text) (ss : List Text)
    → IsSegment s
    → (starts_with (render (s ∷ ss)) (codes "//") ≡ false)
      × (text_eq (render (s ∷ ss)) (codes "/") ≡ false)
not_under_root [] ss k = absurd (k.nonempty refl)
not_under_root (c ∷ s) ss k = (ground (arith, k.no_slash), ground arith)

resolve_destination_root :
    (folder rel_path : Text)
    → resolve_destination (render_path []) folder rel_path ≡ err bad_request
unfolding resolve_destination
resolve_destination_root folder rel_path =
    let name = sanitize folder (codes "untitled") in
    let named = folder-IsSegment folder in
    elim (Bool-cases (is_empty (safe_segments rel_path))) [
      | inl e ↦ rw e refl
      | inr e ↦
          rw
            (
              e,
              path_resolve_of_root name (safe_segments rel_path)
                  (named, safe_segments-IsSegment rel_path),
              (not_under_root name (safe_segments rel_path) named).0,
              (not_under_root name (safe_segments rel_path) named).1,
            )
            refl
    ]

-- The whole behaviour of `resolveDestination` at a media root of plain directory names: it refuses
-- exactly when `relPath` has no usable segment or the media root is "/", where its final check
-- always fires; otherwise it returns the root, the sanitised folder and the sanitised segments joined.
pub resolve_destination_lem :
    (rs : List Text) (folder rel_path : Text)
    → All IsSegment rs
    → resolve_destination (render_path rs) folder rel_path ≡ (
        if is_empty (safe_segments rel_path) || is_empty rs
        then err bad_request
        else ok (render (rs ++ sanitize folder (codes "untitled") ∷ safe_segments rel_path)))
resolve_destination_lem [] folder rel_path h =
    elim (Bool-cases (is_empty (safe_segments rel_path))) [
      | inl e ↦ rw e (resolve_destination_root folder rel_path)
      | inr e ↦ rw e (resolve_destination_root folder rel_path)
    ]
resolve_destination_lem (r ∷ rs) folder rel_path h =
    elim (Bool-cases (is_empty (safe_segments rel_path))) [
      | inl e ↦ rw e (resolve_destination_below r rs h folder rel_path ∙ rw e refl)
      | inr e ↦ rw e (resolve_destination_below r rs h folder rel_path ∙ rw e refl)
    ]
