-- ===== src/Tests/Passwords.antt =====
-- A theorem about wrong passwords at the sample server.
use pop3sf.Prelude.{false, ◌≡◌, refl, List, [], ◌∷◌, arith}
use pop3sf.Text.{Text, text}
use pop3sf.Adapter.{ok, raised, send_data}
use pop3sf.Adapters.ListAdapter.{ListState}
use pop3sf.Helper.{Env}
use pop3sf.Helper.Passwords.{try_passwords, too_many_passwords, try_passwords-limited}
use pop3sf.Tests.Samples.{sample_env, sample_world}

-- The sample server with an adapter that lets nobody in.
abbrev strict : Env ListState
strict = record sample_env {
  adapter = record (sample_env.adapter) {
    verify_login_credentials = λ username password s. (ok false, s);
  };
}

abbrev guesses : List (Text × Text)
guesses =
    (text "user", text "1")
    ∷ (text "user", text "2")
    ∷ (text "user", text "3")
    ∷ (text "user", text "4")
    ∷ (text "user", text "5")
    ∷ []

try_passwords-limited_example :
    ((try_passwords strict guesses (sample_world false)).0 ≡ raised (send_data too_many_passwords))
    × ((try_passwords strict guesses (sample_world false)).1.slept ≡ 2000)
try_passwords-limited_example =
    try_passwords-limited strict 3 refl (λ username password s. refl) guesses (sample_world false)
      (omega arith)
