-- ===== src/Commands/Deleting.antt =====
-- What DELE and RSET do to the mailbox that the adapter shows.
use pop3sf.Prelude.{ℕ, suc, ◌≡◌, refl, sym, subst, true, false, some, [], ◌∷◌, pos}
use pop3sf.Text.{Text, text}
use pop3sf.Text.Decimal.{int}
use pop3sf.Response.{ok_response}
use pop3sf.Adapter.{ok, raised, send_data}
use pop3sf.Session.{World, ◌>>=◌}
use pop3sf.Helper.{Env}
use pop3sf.Helper.Listing.{Mailbox, Shows, Marks, visible, with_mark, mark_message_as_deleted_lem}
use pop3sf.Commands.Arguments.{
  mem_count, check_argument_count, parse_message_number_argument_to_index,
}
use pop3sf.Commands.Listing.{parse_message_number_argument_to_index-accepts, visible-below}
use pop3sf.Commands.Transaction.{command_dele}

module _ {S : Type 0} (env : Env S) (mailbox : Mailbox) (w : World S)
    (marking : Marks env.adapter w.status.encoding)
    (shows : Shows env.adapter w.status.encoding w.adapter mailbox)
    (writes : w.status.read_only_mailbox_access ≡ false) where
  -- If marks can be set in the mailbox that the adapter shows, and the session is not read-only, DELE with
  -- the number of a message without a mark answers that it was marked, and changes nothing but the state
  -- of the adapter, which then shows the same mailbox with a mark on that message too.
  pub command_dele-marks :
      (a : Text) (index : ℕ)
      → int env.unicode a ≡ some (pos (suc index))
      → mem_count index (visible mailbox false) ≡ true
      → (s' : S) × (command_dele env (a ∷ []) w ≡ (
        raised (send_data (ok_response (text "The message was marked as deleted"))),
        record w { adapter = s' },
      ))
        × Shows env.adapter w.status.encoding s' (with_mark index mailbox)
  unfolding ◌>>=◌ command_dele check_argument_count mem_count
  command_dele-marks a index number listed =
      let (s', e, still) =
        marking.marks w.adapter mailbox shows index (visible-below mailbox false index listed) in
      (s', rw (accepted, mark_message_as_deleted_lem env w index s' writes e) refl, still)
    where
      accepted : parse_message_number_argument_to_index env a w ≡ (ok index, w)
      accepted =
          let (there, back) =
            parse_message_number_argument_to_index-accepts env mailbox w shows a index in
          back (number, subst (λ b. mem_count index (visible mailbox b) ≡ true) (sym writes) listed)
