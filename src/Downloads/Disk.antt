-- ===== src/Downloads/Disk.antt =====
-- The regular files that `node:fs` keeps, as far as the downloader uses them: the content at each
-- path. Directories are left out, since `mkdir` and `rmdir` change no regular file.
use circleftp_jellyfin.Base.{
  ℕ, ◌≡◌, ◌≢◌, refl, List, [], Option, none, some, arith, if◌then◌else◌, length,
}
use circleftp_jellyfin.Base.Text.{Text, text_eq, text_eq_iff, text_eq_refl}

abbrev pub Bytes : Type 0
Bytes = List ℕ

abbrev pub Disk : Type 0
Disk = Text → Option Bytes

-- `fileSize`: 0 also for a file that is not there.
abbrev pub size_of : Option Bytes → ℕ
size_of none = 0
size_of (some b) = length b

unfoldable pub file_size : Disk → Text → ℕ
file_size disk path = size_of (disk path)

-- What a path holds after a write, or `none` after a removal.
unfoldable pub put : Disk → Text → Option Bytes → Disk
put disk path content other = if text_eq path other then content else disk other

-- `fs.rename`, which throws when there is nothing to rename.
unfoldable pub rename : Disk → Text → Text → Option Disk
rename disk from to = elim (disk from) [
  | none ↦ none
  | some b ↦ some (put (put disk to (some b)) from none)
]

pub put_self : (disk : Disk) (path : Text) (c : Option Bytes) → put disk path c path ≡ c
unfolding put
put_self disk path c = rw (text_eq_refl path)

pub put_ne :
    (disk : Disk) (path other : Text) (c : Option Bytes)
    → path ≢ other
    → put disk path c other ≡ disk other
unfolding put
put_ne disk path other c h = ground (arith, text_eq_iff path other)

pub rename_missing : (disk : Disk) (from to : Text) → disk from ≡ none → rename disk from to ≡ none
unfolding rename
rename_missing disk from to e = rw (e, rename)

pub rename_present :
    (disk : Disk) (from to : Text) {b : Bytes}
    → disk from ≡ some b
    → rename disk from to ≡ some (put (put disk to (some b)) from none)
unfolding rename
rename_present disk from to e = rw (e, rename)

-- The bytes of a file, none of them if it is not there.
abbrev pub content_of : Option Bytes → Bytes
content_of none = []
content_of (some b) = b

pub size_of_lem : (c : Option Bytes) → size_of c ≡ length (content_of c)
size_of_lem none = refl
size_of_lem (some b) = refl

pub file_size_present :
    (disk : Disk) (path : Text) {b : Bytes} → disk path ≡ some b → file_size disk path ≡ length b
unfolding file_size
file_size_present disk path e = rw e

pub file_size_missing : (disk : Disk) (path : Text) → disk path ≡ none → file_size disk path ≡ 0
unfolding file_size
file_size_missing disk path e = rw e
