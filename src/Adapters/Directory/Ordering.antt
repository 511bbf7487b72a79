-- ===== src/Adapters/Directory/Ordering.antt =====
-- Which messages the index of a directory has, and in which order.
use mathlib.Core.List.{Perm}
use mathlib.Core.List.Perm
use pop3sf.Prelude.{◌≡◌, Bool, false, not, ◌||◌, List, ◌++◌, map, select, All}
use pop3sf.Prelude.Sort.{Before}
use pop3sf.Text.{Text, text, ends_with}
use pop3sf.Text.Order.{text_less}
use pop3sf.Adapter.{Result, ok}
use pop3sf.Adapters.{Library}
use pop3sf.Adapters.Files.{Files}
use pop3sf.Adapters.Directory.{Entry, collect_entries, entry_earlier}

-- The path `p` does not come behind `q`.
abbrev pub Ascends : Text → Text → Type 0
Ascends p q = text_less q p ≡ false

-- the names of messages
abbrev pub is_message_path : Text → Bool
is_message_path p = ends_with (text ".eml") p || ends_with (text ".txt") p

module _ (library : Library) {F : Type 0} (files : Files library F) (f : F) where
  open files use {Epoch, st_mtime, earlier, abspath, glob_all}

  -- What the loop makes of each path.
  abbrev pub IsRead : Entry Epoch → Type 0
  IsRead e =
      (st_mtime e.path f ≡ ok e.last_modified_epoch)
      × (e.is_plaintext ≡ not (ends_with (text ".eml") e.path))

  abbrev entries_from : List Text → Result (List (Entry Epoch))
  entries_from paths = collect_entries library files paths f

  -- the entries are read off the file system, and their paths are the messages' among these
  abbrev Lists : List Text → List (Entry Epoch) → Type 0
  Lists paths es =
      All IsRead es × (map (λ (e : Entry Epoch). e.path) es ≡ select is_message_path paths)

  -- A message comes before another if its file is older, and of two files with the same time the one
  -- whose path comes first.
  abbrev pub IsBefore : Entry Epoch → Entry Epoch → Type 0
  IsBefore = Before (entry_earlier library files) (λ a b. Ascends a.path b.path)

  -- a path that begins with one text before the name of a file and, made absolute, with another
  abbrev IsNamed : Text → Text → Text → Type 0
  IsNamed prefix absolute_prefix p =
      (name : Text) × (prefix ++ name ≡ p) × (abspath p f ≡ absolute_prefix ++ name)

  abbrev pub paths_of : List (Entry Epoch) → List Text
  paths_of = map (λ e. e.path)
