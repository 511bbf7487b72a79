-- ===== src/Client/WithoutQuit.antt =====
-- Lines of a client none of which is QUIT: src/pop3sf/ClientHandler.py, `handle_client`.
use pop3sf.Prelude.{◌≡◌, inl, inr, Bool, false, Bool-cases, List, [], ◌∷◌, All, map}
use pop3sf.Text.{Text, text, text_eq, strip, split}
use pop3sf.Text.Decimal.{Unicode}
use pop3sf.Session.{World, ◌>>=◌}
use pop3sf.Session.Keeps.{Preserves}
use pop3sf.Helper.{Env}
use pop3sf.Helper.Inside.{ClosedUnderEntering, ClosedUnderMarking, IsInside}
use pop3sf.Commands.{handle_command}
use pop3sf.Commands.Access.{handle_command-without_quit}
use pop3sf.Client.Keeps.{ConnectionKeeps, handle_lines-Keeps}
use pop3sf.Client.{split_command, parse_command, run_command, handle_lines}

-- The first word of a line, in upper case, is QUIT.
abbrev pub is_quit : Unicode → List Text → Bool
is_quit unicode [] = false
is_quit unicode (command ∷ args) = text_eq (text "QUIT") (unicode.upper command)

abbrev pub asks_to_quit : Unicode → Text → Bool
asks_to_quit unicode line = is_quit unicode (map strip (split (strip line)))

module _ {S : Type 0} {P : S → Type 0} where
  IsInside-ConnectionKeeps : ConnectionKeeps (IsInside P)
  unfolding ◌>>=◌
  IsInside-ConnectionKeeps = record {
    sending = λ bytes. record { kept = λ w h. record { inside = h.inside } };
    receiving = record { kept = λ w h. record { inside = h.inside } };
    polling = λ rest. record { kept = λ w h. record { inside = h.inside } };
  }

module _ {S : Type 0} (env : Env S) (P : S → Type 0) (entering : ClosedUnderEntering env.adapter P)
    (marking : ClosedUnderMarking env.adapter P) where
  command-IsInside :
      (command : Text) (args : List Text)
      → text_eq (text "QUIT") command ≡ false
      → Preserves (IsInside P) (handle_command env command args)
  command-IsInside command args other = record {
    kept = λ w h. record {
      inside = handle_command-without_quit env P entering marking command args other w h.inside;
    };
  }

  words-IsInside :
      (words : List Text)
      → is_quit env.unicode words ≡ false
      → Preserves
          (IsInside P)
          (do (command, args) ← split_command env words; handle_command env command args)
  unfolding split_command ◌>>=◌
  words-IsInside [] h = record { kept = λ w k. k }
  words-IsInside (command ∷ args) h = record {
    kept = (command-IsInside (env.unicode.upper command) args h).kept;
  }

  line-IsInside :
      (line : Text)
      → asks_to_quit env.unicode line ≡ false
      → Preserves (IsInside P) (run_command env line)
  unfolding run_command parse_command ◌>>=◌
  line-IsInside line h = elim (Bool-cases (text_eq (strip line) [])) [
    | inl e ↦ record { kept = λ w k. rw e k }
    | inr e ↦ record {
      kept = λ w k. rw e ((words-IsInside (map strip (split (strip line))) h).kept w k);
    }
  ]

  lines-IsInside :
      (lines : List Text)
      → All (λ line. asks_to_quit env.unicode line ≡ false) lines
      → All (λ line. Preserves (IsInside P) (run_command env line)) lines
  lines-IsInside [] h = tt
  lines-IsInside (line ∷ lines) h = (line-IsInside line h.0, lines-IsInside lines h.1)

  -- Take any set of states of the adapter that its methods for logging in and its methods on messages,
  -- other than the one that commits deletions, do not leave. Handling lines, none of which is QUIT,
  -- does not leave it, whatever the answers are and however it ends.
  pub handle_lines-without_quit :
      (lines : List Text)
      → All (λ line. asks_to_quit env.unicode line ≡ false) lines
      → (w : World S) → P w.adapter
      → P (handle_lines env lines w).1.adapter
  handle_lines-without_quit lines h w k =
      ((handle_lines-Keeps env IsInside-ConnectionKeeps lines (lines-IsInside lines h)).kept w
        (record { inside = k })).inside
