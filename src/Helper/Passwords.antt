-- ===== src/Helper/Passwords.antt =====
-- How often a session can try a wrong password.
use native.Mathlib.Nat.{suc-mul}
use pop3sf.Prelude.{
  ℕ, suc, ◌+◌, ◌-◌, ◌*◌, ◌≤◌, ◌≡◌, refl, ap, ◌∙◌, inl, inr, Bool, true, false, Bool-cases, some,
  List, [], ◌∷◌, length, pos, ltb, leb, arith, if◌then◌else◌,
}
use pop3sf.Text.{Text, text}
use pop3sf.Response.{Response, auth, err_response, close_connection_after_sending_data}
use pop3sf.Adapter.{ok, raised, send_data}
use pop3sf.Session.{World, Exec, pure, ◌>>=◌}
use pop3sf.Helper.{Env, verify_login_credentials, perform_invalid_password_punishments}

abbrev pub too_many_passwords : Response
too_many_passwords =
    close_connection_after_sending_data
      (err_response (text "Too many incorrect passwords") (some auth))

one_more :
    (b : Bool) (start delay n rounds : ℕ)
    → start + delay + (if b then n else rounds) * delay
      ≡ start + (if b then suc n else suc rounds) * delay
one_more true start delay n rounds = omega (arith, suc-mul n delay)
one_more false start delay n rounds = omega (arith, suc-mul rounds delay)

module _ {S : Type 0} (env : Env S) where
  -- One try after another, until one raises.
  pub try_passwords : List (Text × Text) → Exec S Unit
  try_passwords [] = pure tt
  try_passwords ((username, password) ∷ tries) = do
    success ← verify_login_credentials env username password
    try_passwords tries

  module _ (limit : ℕ) (limited : env.settings.max_invalid_passwords_per_session ≡ pos limit)
      (refuses : (username password : Text) (s : S)
        → (env.adapter.verify_login_credentials username password s).0 ≡ ok false) where
    -- the world after one wrong password
    abbrev refused : Text → Text → World S → World S
    refused username password w = record w {
      adapter = (env.adapter.verify_login_credentials username password w.adapter).1;
      slept = w.slept + env.settings.failed_login_delay;
      status = record (w.status) { invalid_password_count = w.status.invalid_password_count + 1 };
    }

    verify-refused :
        (username password : Text) (w : World S)
        → verify_login_credentials env username password w ≡ (
          (if ltb limit (w.status.invalid_password_count + 1)
              then raised (send_data too_many_passwords)
              else ok false),
          refused username password w,
        )
    unfolding ◌>>=◌ verify_login_credentials perform_invalid_password_punishments
    verify-refused username password w =
        rw (refuses username password w.adapter, limited)
          (elim (Bool-cases (ltb limit (w.status.invalid_password_count + 1))) [
            | inl e ↦ rw e refl
            | inr e ↦ rw e refl
          ])

    abbrev delay : ℕ
    delay = env.settings.failed_login_delay

    abbrev is_within : List (Text × Text) → World S → Bool
    is_within tries w = leb (w.status.invalid_password_count + length tries) limit

    -- If the adapter refuses all passwords, the limit is not negative, and a session has not passed it,
    -- then tries that do not pass it either all return, and further ones end in the answer that closes the
    -- connection; and the session has slept for the delay for each try up to there.
    pub try_passwords-limited :
        (tries : List (Text × Text)) (w : World S)
        → w.status.invalid_password_count ≤ limit
        → ((try_passwords tries w).0
            ≡ (if is_within tries w then ok tt else raised (send_data too_many_passwords)))
          × ((try_passwords tries w).1.slept
              ≡ w.slept
                + (if is_within tries w
                    then length tries
                    else suc (limit - w.status.invalid_password_count))
                  * delay)
    unfolding ◌>>=◌ try_passwords
    try_passwords-limited [] w l =
        let e : leb (w.status.invalid_password_count + 0) limit ≡ true = ground arith in
        rw e (refl, omega arith)
    try_passwords-limited ((username, password) ∷ tries) w l =
        elim (Bool-cases (ltb limit (w.status.invalid_password_count + 1))) [
          | inl e ↦
              let within : is_within ((username, password) ∷ tries) w ≡ false = ground arith in
              let last : limit - w.status.invalid_password_count ≡ 0 = ground arith in
              rw (verify-refused username password w, e, within, last) (refl, omega arith)
          | inr e ↦
              let (answer, slept) =
                try_passwords-limited tries (refused username password w) (ground arith) in
              let same : is_within tries (refused username password w)
                  ≡ is_within ((username, password) ∷ tries) w =
                ap (λ n. leb n limit) (omega arith) in
              let more : suc (limit - (w.status.invalid_password_count + 1))
                  ≡ limit - w.status.invalid_password_count =
                ground arith in
              rw (verify-refused username password w, e)
                (
                  answer
                      ∙ ap (λ b. if b then ok tt else raised (send_data too_many_passwords)) same,
                  slept
                      ∙ one_more (is_within tries (refused username password w)) w.slept delay
                          (length tries) (suc (limit - (w.status.invalid_password_count + 1)))
                      ∙ ap
                          (λ b.
                            w.slept
                            + (if b
                                then suc (length tries)
                                else suc (suc (limit - (w.status.invalid_password_count + 1))))
                              * delay)
                          same
                      ∙ ap
                          (λ n.
                            w.slept
                            + (if is_within ((username, password) ∷ tries) w
                                then suc (length tries)
                                else suc n)
                              * delay)
                          more,
                )
        ]
