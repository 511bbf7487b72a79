-- ===== src/Tests/UniqueIds.antt =====
-- A theorem about UIDL at the sample mailbox.
use pop3sf.Commands.Arguments.{two_fields}
use pop3sf.Text.{join}
use pop3sf.Text.Decimal.{to_decimal}
use pop3sf.Text.Encoding.{encode}
use pop3sf.Adapters.ListAdapter.{content_at}
use pop3sf.Prelude.{ℕ, zero, suc, ◌<◌, ◌≡◌, ◌↔◌, refl, true, false, [], ◌∷◌, arith}
use pop3sf.Text.{Text, text}
use pop3sf.Text.Encoding.{ascii}
use pop3sf.Response.{ok_multiline, err_internal}
use pop3sf.Adapter.{ok, raised, send_data}
use pop3sf.Adapters.Shown.{mailbox_of, list_adapter-Shows}
use pop3sf.Helper.{matches_unique_id}
use pop3sf.Helper.Listing.{seen}
use pop3sf.Commands.Transaction.{command_uidl}
use pop3sf.Commands.UniqueIds.{AllDistinct, command_uidl-distinct}
use pop3sf.Tests.Samples.{sample_env, sample_world, sample_mailbox, sample_library}

-- the stand-in for a hash is the length
abbrev sample_id : ℕ → Text
sample_id zero = text "12"
sample_id (suc i) = text "6"

sample-gives :
    (i : ℕ)
    → i < 2
    → seen (mailbox_of sample_mailbox) false i ≡ false
    → (sample_env.adapter.get_message_unique_id i sample_mailbox
        ≡ (ok (sample_id i), sample_mailbox))
      × (matches_unique_id (sample_id i) ≡ true)
unfolding content_at encode text to_decimal matches_unique_id
sample-gives zero l e = (refl, refl)
sample-gives (suc zero) l e = (refl, refl)
sample-gives (suc (suc i)) l e = absurd (omega (arith, l))

command_uidl-distinct_example :
    ((command_uidl sample_env [] (sample_world false) ≡ (
      raised (
          send_data
            (ok_multiline (text "Listing all messages' unique IDs") (text "1 12\r\n2 6") false)),
      sample_world false,
    ))
      ↔ AllDistinct (text "12" ∷ text "6" ∷ []))
    × ((command_uidl sample_env [] (sample_world false)
          ≡ (raised (send_data err_internal), sample_world false))
        ↔ ¬ AllDistinct (text "12" ∷ text "6" ∷ []))
unfolding text join two_fields to_decimal
command_uidl-distinct_example =
    command_uidl-distinct sample_env (mailbox_of sample_mailbox) (sample_world false)
      (list_adapter-Shows sample_library ascii sample_mailbox) sample_id sample-gives
