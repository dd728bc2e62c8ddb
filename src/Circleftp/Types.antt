-- ===== src/Circleftp/Types.antt =====
-- circleftp/types.ts: what the upstream API returns, as far as the code reads it. A field that is
-- absent or null is `none`, also an `id`, which is a number otherwise; a `year`, which may be a number, is its text, or `none` for 0. What should be an object
-- but is none is `none` in a list, and `RawEntry` has the fields of a season and of a part, since
-- the code takes the elements of `content` for what the type of the post says.
use circleftp_jellyfin.Base.{ℕ, List, Option}
use circleftp_jellyfin.Base.Text.{Text}

pub record RawCategory : Type 0 where
  pub name : Option Text
  pub type : Option Text

pub record RawEpisode : Type 0 where
  pub link : Option Text
  pub title : Option Text

pub record RawEntry : Type 0 where
  pub season_name : Option Text
  pub episodes : Option (List (Option RawEpisode))
  pub link : Option Text
  pub title : Option Text

pub data RawContent : Type 0 where
  nothing : RawContent
  text : Text → RawContent
  entries : List (Option RawEntry) → RawContent

pub record RawPost : Type 0 where
  pub id : Option ℕ
  pub title : Option Text
  pub name : Option Text
  pub type : Option Text
  pub year : Option Text
  pub quality : Option Text
  pub watch_time : Option Text
  pub meta_data : Option Text
  pub image : Option Text
  pub image_sm : Option Text
  pub categories : Option (List (Option RawCategory))
  pub content : RawContent
