-- ===== src/Tests/SampleFiles.antt =====
-- A file system as a list of paths with contents, where the first entry of a path counts.
use pop3sf.Prelude.{
  ℕ, ◌≡◌, ◌≢◌, ◌∙◌, refl, sym, inl, inr, Bool-cases, ap, subst, Bool, true, false, List, [], ◌∷◌,
  ◌++◌, length, map, ltb, All, arith, if◌then◌else◌,
}
use pop3sf.Text.{Text, text, text_eq}
use pop3sf.Text.Words.{text_eq_refl, text_eq→eq}
use pop3sf.Text.Decimal.{to_decimal}
use pop3sf.Text.Encoding.{Bytes}
use pop3sf.Text.Ascii.{IsVisible}
use pop3sf.Adapter.{Result, ok, raised, os_error}
use pop3sf.Adapters.Files.{Files}
use pop3sf.Adapters.Directory.Commit.{RemoveLaws, text_eq-differs}
use pop3sf.Tools.Agreement.{BcryptLaws, WriteLaws}
use pop3sf.Tests.Samples.{sample_library, scramble}

abbrev pub FileList : Type 0
FileList = List (Text × Text)

abbrev pub content_of : Text → FileList → Result Text
content_of path [] = raised os_error
content_of path ((p, content) ∷ rest) =
    let later = content_of path rest in if text_eq p path then ok content else later

abbrev is_ok : Result Text → Bool
is_ok (ok t) = true
is_ok (raised e) = false

abbrev size_of : Result Text → Result ℕ
size_of (ok t) = ok (length t)
size_of (raised e) = raised e

abbrev without : Text → FileList → FileList
without path [] = []
without path ((p, content) ∷ rest) =
    let later = without path rest in if text_eq p path then later else (p, content) ∷ later

-- The time of the last change is the length of the content here.
abbrev pub sample_files : Files sample_library FileList
sample_files = record {
  Epoch = ℕ;
  earlier = ltb;
  print_epoch = to_decimal;
  gmtime = λ epoch. epoch;
  join_path = λ directory name. directory ++ (text "/" ++ name);
  abspath = λ path f. path;
  glob_all = λ directory f. map (λ entry. entry.0) f;
  isfile = λ path f. is_ok (content_of path f);
  exists = λ path f. true;
  st_mtime = λ path f. size_of (content_of path f);
  read_file = content_of;
  write_file = λ path content f. (ok tt, (path, content) ∷ f);
  remove_file = λ path f. (ok tt, without path f);
  mkdir = λ path f. (ok tt, f);
}

written : (path content : Text) (f : FileList) → content_of path ((path, content) ∷ f) ≡ ok content
written path content f = rw (text_eq_refl path) refl

pub sample-WriteLaws : WriteLaws sample_files
sample-WriteLaws = record {
  read-write = λ path content f f' plain h.
      subst (λ g. content_of path g ≡ ok content) (ap (λ r. r.1) h) (written path content f);
  isfile-write = λ path content f f' h.
      subst (λ g. is_ok (content_of path g) ≡ true) (ap (λ r. r.1) h)
        (ap is_ok (written path content f));
}

scramble-IsVisible : (p : Bytes) → All IsVisible (scramble p)
scramble-IsVisible [] = tt
scramble-IsVisible (b ∷ p) = ((omega arith, omega arith), scramble-IsVisible p)

pub sample-BcryptLaws : BcryptLaws sample_library
sample-BcryptLaws = record {
  checkpw-hashpw = λ p salt. ap ok (text_eq_refl (scramble p));
  hashpw-IsVisible = λ p salt. scramble-IsVisible p;
}

gone : (path : Text) (f : FileList) → is_ok (content_of path (without path f)) ≡ false
gone path [] = refl
gone path ((p, content) ∷ rest) = elim (Bool-cases (text_eq p path)) [
  | inl e ↦ rw e (gone path rest)
  | inr e ↦ rw (e, e) (gone path rest)
]

spared : (path q : Text) (f : FileList) → q ≢ path → content_of q (without path f) ≡ content_of q f
spared path q [] n = refl
spared path q ((p, content) ∷ rest) n = elim (Bool-cases (text_eq p path)) [
  | inl e ↦ rw (e, other p e) (spared path q rest n)
  | inr e ↦ rw (e, spared path q rest n) refl
]
  where
    other : (p : Text) → text_eq p path ≡ true → text_eq p q ≡ false
    other p e = elim (Bool-cases (text_eq p q)) [
      | inl same ↦ absurd (n (sym (text_eq→eq p q same) ∙ text_eq→eq p path e))
      | inr differs ↦ differs
    ]

none_made :
    (path q : Text) (f : FileList)
    → is_ok (content_of q f) ≡ false
    → is_ok (content_of q (without path f)) ≡ false
none_made path q [] h = refl
none_made path q ((p, content) ∷ rest) h = elim (Bool-cases (text_eq q path)) [
  | inl e ↦
      subst (λ t. is_ok (content_of q (without t ((p, content) ∷ rest))) ≡ false)
        (text_eq→eq q path e) (gone q ((p, content) ∷ rest))
  | inr e ↦ ap is_ok (spared path q ((p, content) ∷ rest) (differs e)) ∙ h
]
  where
    differs : text_eq q path ≡ false → q ≢ path
    differs e = text_eq-differs q path e

pub sample-RemoveLaws : RemoveLaws sample_files
sample-RemoveLaws = record {
  removed = λ p f h. gone p f;
  spares = λ p q f n. (ap is_ok (spared p q f n), spared p q f n);
  makes_none = none_made;
}
