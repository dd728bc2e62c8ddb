-- ===== src/Circleftp/Text.antt =====
-- packages/server/src/circleftp/text.ts: `sanitize`, which makes one safe path component.
pub mod Laws
pub mod Patterns
pub mod Numbers
pub mod Names
use circleftp_jellyfin.Base.{
  ℕ, List, [], ◌∷◌, Bool, true, false, ◌||◌, map, if◌then◌else◌, leb, ◌==◌,
}
use circleftp_jellyfin.Base.Text.{Text, is_space, trim_start_by, trim_end_by}

-- `[<>:"/\\|?*\x00-\x1f]`
unfoldable pub is_illegal : ℕ → Bool
is_illegal c =
    c == b'<'
    || c == b'>'
    || c == b':'
    || c == 34
    || c == b'/'
    || c == 92
    || c == b'|'
    || c == b'?'
    || c == b'*'
    || leb c 31

-- `[\s.]`
abbrev pub is_edge : ℕ → Bool
is_edge c = is_space c || c == b'.'

-- `.replace(ILLEGAL_PATH_CHARS, ' ')`
unfoldable pub blank_illegal : ℕ → ℕ
blank_illegal c = if is_illegal c then 32 else c

-- `.replace(/\s+/g, ' ')`; the flag says that the character before was white space.
unfoldable pub collapse : Bool → Text → Text
collapse within [] = []
collapse within (c ∷ s) =
    let rest = collapse (is_space c) s in
    if is_space c then if within then rest else 32 ∷ rest else c ∷ rest

-- `a || b` on texts.
abbrev pub or_text : Text → Text → Text
or_text [] t = t
or_text (c ∷ s) t = c ∷ s

unfoldable pub sanitize : Text → Text → Text
unfolding blank_illegal collapse
sanitize name fallback =
    or_text (trim_end_by is_edge (trim_start_by is_edge (collapse false (map blank_illegal name))))
      fallback
