-- ===== src/Circleftp/Text/Laws.antt =====
-- What `sanitize` promises of its result: a component that can be joined to a directory.
use circleftp_jellyfin.Base.{ℕ, ◌≡◌, refl, ◌≢◌, ◌⊎◌, [], ◌∷◌, Bool, true, false, map, arith, All}
use circleftp_jellyfin.Base.Text.{Text, is_space, trim_start_by, trim_end_by, cons_unless}
use circleftp_jellyfin.Circleftp.Text.{
  is_illegal, is_edge, blank_illegal, collapse, or_text, sanitize,
}

-- No character that a file system refuses.
abbrev pub IsLegal : Text → Type 0
IsLegal = All (λ c. is_illegal c ≡ false)

abbrev pub HeadIsPlain : Text → Type 0
HeadIsPlain [] = Unit
HeadIsPlain (c ∷ s) = is_edge c ≡ false

abbrev pub LastIsPlain : Text → Type 0
LastIsPlain [] = Unit
LastIsPlain (c ∷ []) = is_edge c ≡ false
LastIsPlain (c ∷ d ∷ s) = LastIsPlain (d ∷ s)

-- White space is single blanks.
abbrev pub IsCollapsed : Bool → Text → Type 0
IsCollapsed within [] = Unit
IsCollapsed within (c ∷ s) =
    ((is_space c ≡ false) ⊎ ((c ≡ 32) × (within ≡ false))) × IsCollapsed (is_space c) s

-- A safe name: not empty, nothing illegal, and neither white space nor a dot at its ends.
pub record IsComponent (t : Text) : Type 0 where
  pub nonempty : t ≢ []
  pub legal : IsLegal t
  pub head : HeadIsPlain t
  pub last : LastIsPlain t

-- A blank is legal, and it is white space.
space-legal : is_illegal 32 ≡ false
unfolding is_illegal
space-legal = refl

is_space-blank : is_space 32 ≡ true
unfolding is_space
is_space-blank = refl

blank_illegal-legal : (c : ℕ) → is_illegal (blank_illegal c) ≡ false
unfolding blank_illegal
blank_illegal-legal c = ground (arith, space-legal)

map-IsLegal : (s : Text) → IsLegal (map blank_illegal s)
map-IsLegal [] = tt
map-IsLegal (c ∷ s) = (blank_illegal-legal c, map-IsLegal s)

collapse-IsLegal : (b : Bool) (s : Text) → IsLegal s → IsLegal (collapse b s)
unfolding collapse
collapse-IsLegal b [] h = tt
collapse-IsLegal b (c ∷ s) (p, h) = ground (arith, space-legal, collapse-IsLegal (is_space c) s h)

collapse-IsCollapsed : (b : Bool) (s : Text) → IsCollapsed b (collapse b s)
unfolding collapse
collapse-IsCollapsed b [] = tt
collapse-IsCollapsed true (c ∷ s) =
    ground (arith, is_space-blank, collapse-IsCollapsed (is_space c) s)
collapse-IsCollapsed false (c ∷ s) =
    ground (arith, is_space-blank, collapse-IsCollapsed (is_space c) s)

trim_start-IsLegal : (s : Text) → IsLegal s → IsLegal (trim_start_by is_edge s)
trim_start-IsLegal [] h = tt
trim_start-IsLegal (c ∷ s) (p, h) = ground (arith, trim_start-IsLegal s h)

cons_unless-IsLegal :
    (b : Bool) (c : ℕ) (s : Text) → is_illegal c ≡ false → IsLegal s → IsLegal (cons_unless b c s)
cons_unless-IsLegal true c [] p h = tt
cons_unless-IsLegal true c (d ∷ s) p h = (p, h)
cons_unless-IsLegal false c s p h = (p, h)

trim_end-IsLegal : (s : Text) → IsLegal s → IsLegal (trim_end_by is_edge s)
trim_end-IsLegal [] h = tt
trim_end-IsLegal (c ∷ s) (p, h) = cons_unless-IsLegal (is_edge c) c _ p (trim_end-IsLegal s h)

trim_start-HeadIsPlain : (s : Text) → HeadIsPlain (trim_start_by is_edge s)
trim_start-HeadIsPlain [] = tt
trim_start-HeadIsPlain (c ∷ s) = ground (arith, trim_start-HeadIsPlain s)

cons_unless-HeadIsPlain :
    (b : Bool) (c : ℕ) (s : Text) → is_edge c ≡ false → HeadIsPlain (cons_unless b c s)
cons_unless-HeadIsPlain true c [] p = tt
cons_unless-HeadIsPlain true c (d ∷ s) p = p
cons_unless-HeadIsPlain false c s p = p

trim_end-HeadIsPlain : (s : Text) → HeadIsPlain s → HeadIsPlain (trim_end_by is_edge s)
trim_end-HeadIsPlain [] h = tt
trim_end-HeadIsPlain (c ∷ s) h = cons_unless-HeadIsPlain (is_edge c) c _ h

cons_unless-LastIsPlain :
    (b : Bool) (c : ℕ) (s : Text) → is_edge c ≡ b → LastIsPlain s → LastIsPlain (cons_unless b c s)
cons_unless-LastIsPlain true c [] e h = tt
cons_unless-LastIsPlain true c (d ∷ s) e h = h
cons_unless-LastIsPlain false c [] e h = e
cons_unless-LastIsPlain false c (d ∷ s) e h = h

trim_end-LastIsPlain : (s : Text) → LastIsPlain (trim_end_by is_edge s)
trim_end-LastIsPlain [] = tt
trim_end-LastIsPlain (c ∷ s) = cons_unless-LastIsPlain (is_edge c) c _ refl (trim_end-LastIsPlain s)

or_text-IsComponent :
    (s t : Text)
    → IsLegal s
    → HeadIsPlain s
    → LastIsPlain s
    → IsComponent t
    → IsComponent (or_text s t)
or_text-IsComponent [] t _ _ _ k = k
or_text-IsComponent (c ∷ s) t l h e k = record { nonempty = λ e. cc; legal = l; head = h; last = e }

-- Whatever the name, the result of `sanitize` is a safe component: it is not empty, holds no
-- separator and no other illegal or control character, and neither begins nor ends with white
-- space or a dot; provided that the fallback is one.
pub sanitize-IsComponent :
    (name fallback : Text) → IsComponent fallback → IsComponent (sanitize name fallback)
unfolding sanitize
sanitize-IsComponent name fallback k =
    or_text-IsComponent _ fallback
      (trim_end-IsLegal _ (trim_start-IsLegal _ (collapse-IsLegal false _ (map-IsLegal name))))
      (trim_end-HeadIsPlain _ (trim_start-HeadIsPlain _)) (trim_end-LastIsPlain _) k

-- On a text that is clean already each of the four steps is the identity.
map-eq_of_IsLegal : (s : Text) → IsLegal s → map blank_illegal s ≡ s
unfolding blank_illegal
map-eq_of_IsLegal [] h = refl
map-eq_of_IsLegal (c ∷ s) (p, h) = ground (arith, map-eq_of_IsLegal s h)

collapse-eq_of_IsCollapsed : (b : Bool) (s : Text) → IsCollapsed b s → collapse b s ≡ s
unfolding collapse
collapse-eq_of_IsCollapsed b [] h = refl
collapse-eq_of_IsCollapsed b (c ∷ s) (p, h) =
    ground (arith, is_space-blank, collapse-eq_of_IsCollapsed (is_space c) s h)

trim_start-eq_of_HeadIsPlain : (s : Text) → HeadIsPlain s → trim_start_by is_edge s ≡ s
trim_start-eq_of_HeadIsPlain [] h = refl
trim_start-eq_of_HeadIsPlain (c ∷ s) h = rw h

trim_end-eq_of_LastIsPlain : (s : Text) → LastIsPlain s → trim_end_by is_edge s ≡ s
trim_end-eq_of_LastIsPlain [] h = refl
trim_end-eq_of_LastIsPlain (c ∷ []) h = rw h
trim_end-eq_of_LastIsPlain (c ∷ d ∷ s) h = rw (trim_end-eq_of_LastIsPlain (d ∷ s) h) (ground arith)

IsCollapsed-weaken : (b : Bool) (s : Text) → IsCollapsed b s → IsCollapsed false s
IsCollapsed-weaken b [] h = tt
IsCollapsed-weaken b (c ∷ s) h = ground arith

trim_start-IsCollapsed :
    (b : Bool) (s : Text) → IsCollapsed b s → IsCollapsed false (trim_start_by is_edge s)
trim_start-IsCollapsed b [] h = tt
trim_start-IsCollapsed b (c ∷ s) h =
    ground (arith, trim_start-IsCollapsed (is_space c) s h.1, IsCollapsed-weaken b (c ∷ s) h)

cons_unless-IsCollapsed :
    (b e : Bool) (c : ℕ) (s : Text)
    → ((is_space c ≡ false) ⊎ ((c ≡ 32) × (b ≡ false)))
    → IsCollapsed (is_space c) s
    → IsCollapsed b (cons_unless e c s)
cons_unless-IsCollapsed b true c [] p h = tt
cons_unless-IsCollapsed b true c (d ∷ s) p h = (p, h)
cons_unless-IsCollapsed b false c s p h = (p, h)

trim_end-IsCollapsed :
    (b : Bool) (s : Text) → IsCollapsed b s → IsCollapsed b (trim_end_by is_edge s)
trim_end-IsCollapsed b [] h = tt
trim_end-IsCollapsed b (c ∷ s) (p, h) =
    cons_unless-IsCollapsed b (is_edge c) c _ p (trim_end-IsCollapsed (is_space c) s h)

or_text-IsCollapsed :
    (s t : Text) → IsCollapsed false s → IsCollapsed false t → IsCollapsed false (or_text s t)
or_text-IsCollapsed [] t h k = k
or_text-IsCollapsed (c ∷ s) t h k = h

or_text-left : (s t : Text) → s ≢ [] → or_text s t ≡ s
or_text-left [] t h = absurd (h refl)
or_text-left (c ∷ s) t h = refl

-- A safe component whose white space is single blanks is left as it is.
pub sanitize-eq_self :
    (name fallback : Text)
    → IsComponent name
    → IsCollapsed false name
    → sanitize name fallback ≡ name
unfolding sanitize
sanitize-eq_self name fallback k w =
    rw
      (
        map-eq_of_IsLegal name k.legal,
        collapse-eq_of_IsCollapsed false name w,
        trim_start-eq_of_HeadIsPlain name k.head,
        trim_end-eq_of_LastIsPlain name k.last,
      )
      (or_text-left name fallback k.nonempty)

sanitize-IsCollapsed :
    (name fallback : Text) → IsCollapsed false fallback → IsCollapsed false (sanitize name fallback)
unfolding sanitize
sanitize-IsCollapsed name fallback w =
    or_text-IsCollapsed _ fallback
      (trim_end-IsCollapsed false _
        (trim_start-IsCollapsed false _ (collapse-IsCollapsed false (map blank_illegal name))))
      w

-- Sanitising twice is sanitising once, whatever the second fallback, provided that the first one is
-- a safe component without runs of white space.
pub sanitize-sanitize :
    (name fallback other : Text)
    → IsComponent fallback
    → IsCollapsed false fallback
    → sanitize (sanitize name fallback) other ≡ sanitize name fallback
sanitize-sanitize name fallback other k w =
    sanitize-eq_self _ other (sanitize-IsComponent name fallback k)
      (sanitize-IsCollapsed name fallback w)
