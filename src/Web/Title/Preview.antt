-- ===== src/Web/Title/Preview.antt =====
-- The page of a title with the seasons that are ticked there, and the creation that its button asks
-- for.
use circleftp_jellyfin.Base.Text.{Text}
