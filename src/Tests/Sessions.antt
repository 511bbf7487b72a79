-- ===== src/Tests/Sessions.antt =====
-- Theorems about sessions and commands at the sample server.
use pop3sf.Prelude.{
  ℕ, zero, suc, ◌≡◌, ◌⊎◌, inl, inr, ◌↔◌, refl, true, false, Option, none, some, List, [], ◌∷◌,
  get_elem?,
}
use pop3sf.Text.{Text, text, text_eq}
use pop3sf.Text.Encoding.{Bytes, utf8, encode}
use pop3sf.Response.{Response}
use pop3sf.Adapter.{
  Exception, send_data, unicode_encode_error, Result, ok, raised, default_read_only_mode_allowed,
  default_login_successful,
}
use pop3sf.Adapters.{Marked, index_error, encoded, is_marked, mark_at, mark}
use pop3sf.Session.Answers.{IsRaisedIn}
use pop3sf.Helper.Answers.{RaisesOnly}
use pop3sf.Adapters.ListAdapter.{ListState, store, content_at, hash_of, unique_id_of}
use pop3sf.Ensurer.{Client, no_clients, add_client}
use pop3sf.Ensurer.Exclusion.{
  Request, log_in, disconnect, IsLimited, serve, serve-IsLimited, sessions, add_client-accepts,
}
use pop3sf.Helper.ReadOnly.{ClosedUnderReading, IsReader}
use pop3sf.Helper.Login.{IsLoggedInAs, IsConsistent, logged_in}
use pop3sf.Commands.{handle_command}
use pop3sf.Commands.ReadOnly.{handle_command-IsReader}
use pop3sf.Commands.Login.{handle_command-IsConsistent}
use pop3sf.Commands.Exceptions.{handle_command-answers}
use pop3sf.Tests.Samples.{sample_library, sample_env, sample_world, sample_mailbox}

-- An `IndexError` or a `UnicodeEncodeError`.
abbrev IsLookupError : Exception → Type 0
IsLookupError e = (e ≡ index_error) ⊎ (e ≡ unicode_encode_error)

content-IsLookupError :
    (messages : List (Marked Text)) (i : ℕ) → IsRaisedIn IsLookupError (content_at messages i)
unfolding content_at
content-IsLookupError [] zero = inl refl
content-IsLookupError [] (suc i) = inl refl
content-IsLookupError (m ∷ messages) zero = tt
content-IsLookupError (m ∷ messages) (suc i) = content-IsLookupError messages i

unique_id-IsLookupError :
    (r : Result Text)
    → IsRaisedIn IsLookupError r
    → IsRaisedIn IsLookupError (unique_id_of sample_library r)
unique_id-IsLookupError (raised e) h = h
unique_id-IsLookupError (ok content) h = go (encode utf8 content)
  where
    go : (b : Option Bytes) → IsRaisedIn IsLookupError (hash_of sample_library (encoded b))
    go none = inr refl
    go (some b) = tt

is_marked-IsLookupError :
    (messages : List (Marked Text)) (i : ℕ) → IsRaisedIn IsLookupError (is_marked messages i)
unfolding is_marked
is_marked-IsLookupError [] zero = inl refl
is_marked-IsLookupError [] (suc i) = inl refl
is_marked-IsLookupError (m ∷ messages) zero = tt
is_marked-IsLookupError (m ∷ messages) (suc i) = is_marked-IsLookupError messages i

mark-IsLookupError :
    (items messages : List (Marked Text)) (i j : ℕ) (s : ListState)
    → IsRaisedIn IsLookupError (store (mark_at items i (get_elem? messages j)) s).0
unfolding mark_at
mark-IsLookupError items [] i zero s = inl refl
mark-IsLookupError items [] i (suc j) s = inl refl
mark-IsLookupError items (m ∷ messages) i zero s = tt
mark-IsLookupError items (m ∷ messages) i (suc j) s = mark-IsLookupError items messages i j s

sample-RaisesOnly : RaisesOnly IsLookupError sample_env.adapter
unfolding default_read_only_mode_allowed default_login_successful mark
sample-RaisesOnly = record {
  mode = λ s. tt;
  verify = λ u p s. tt;
  login = λ u b s. tt;
  count = λ s. tt;
  content = λ i e s. content-IsLookupError s.message_objects i;
  unique_id = λ i s. unique_id-IsLookupError _ (content-IsLookupError s.message_objects i);
  marked = λ i s. is_marked-IsLookupError s.message_objects i;
  mark = λ i s. mark-IsLookupError s.message_objects s.message_objects i i s;
  unmark = λ s. tt;
  commit = λ s. tt;
}

handle_command-answers_example :
    (e : Exception) × ((handle_command sample_env
        (text "DELE")
        (text "1" ∷ [])
        (sample_world false)).0
      ≡ raised e)
    × (((r : Response) × (e ≡ send_data r)) ⊎ IsLookupError e)
handle_command-answers_example =
    handle_command-answers sample_env IsLookupError sample-RaisesOnly (text "DELE") (text "1" ∷ [])
      (sample_world false)

abbrev IsUntouched : ListState → Type 0
IsUntouched s = s ≡ sample_mailbox

reading-IsUntouched : ClosedUnderReading sample_env.adapter IsUntouched
unfolding default_read_only_mode_allowed
reading-IsUntouched = record {
  mode = λ s h. h;
  count = λ s h. h;
  content = λ i e s h. h;
  unique_id = λ i s h. h;
}

sample-IsReader : IsReader IsUntouched (sample_world true)
sample-IsReader = record { logged_in = refl; reader = refl; inside = refl }

handle_command-IsReader_example :
    IsReader IsUntouched
      (handle_command sample_env (text "DELE") (text "1" ∷ []) (sample_world true)).1
handle_command-IsReader_example =
    handle_command-IsReader sample_env IsUntouched reading-IsUntouched (text "DELE") (text "1" ∷ [])
      (sample_world true) sample-IsReader

sample-IsLoggedInAs : IsLoggedInAs (text "user") false (sample_world false)
unfolding text_eq text
sample-IsLoggedInAs = record {
  authenticated = refl;
  username = refl;
  mode_is = refl;
  in_ensurer = refl;
}

handle_command-IsConsistent_example :
    IsConsistent (handle_command sample_env (text "QUIT") [] (sample_world false)).1
handle_command-IsConsistent_example =
    handle_command-IsConsistent sample_env (text "QUIT") [] (sample_world false)
      (logged_in (text "user") false sample-IsLoggedInAs)

abbrev requests : List Request
requests =
    log_in 1 (text "user") false
    ∷ log_in 2 (text "user") true
    ∷ disconnect 1
    ∷ log_in 3 (text "user") true
    ∷ []

serve-IsLimited_example : IsLimited (text "user") (serve requests no_clients)
serve-IsLimited_example = serve-IsLimited (text "user") requests

abbrev one_reader : List Client
one_reader = record { connection_id = 1; username = text "user"; read_only = true } ∷ []

add_client-accepts_example : (add_client 2 (text "user") false one_reader).1 ≡ true ↔ (
    (sessions (text "user") false one_reader ≡ 0)
    × (false ≡ false → sessions (text "user") true one_reader ≡ 0))
add_client-accepts_example = add_client-accepts 2 (text "user") false one_reader
