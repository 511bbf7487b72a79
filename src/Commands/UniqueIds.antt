-- ===== src/Commands/UniqueIds.antt =====
-- What UIDL answers, against a description of the mailbox.
use mathlib.Core.List.{map-map}
use pop3sf.Prelude.{
  ℕ, ◌+◌, ◌<◌, ◌≡◌, ◌≢◌, ◌↔◌, refl, subst, ap, inl, inr, true, false, Bool-cases, List, [], ◌∷◌,
  All, map, arith, if◌then◌else◌,
}
use pop3sf.Text.{Text, text, text_eq, crlf, join, convert_index_to_message_number}
use pop3sf.Text.Words.{text_eq→eq, text_eq_refl}
use pop3sf.Text.Decimal.{to_decimal}
use pop3sf.Response.{Response, ok_multiline, err_internal, err_response}
use pop3sf.Adapter.{ok, raised, send_data}
use pop3sf.Session.{World, ◌>>=◌}
use pop3sf.Helper.{Env, matches_unique_id, mem_text, all_different}
use pop3sf.Helper.Listing.{Mailbox, Shows, seen, visible, get_all_undeleted_messages_unique_ids_lem}
use pop3sf.Commands.Arguments.{two_fields, mem_count, check_argument_count}
use pop3sf.Commands.Transaction.{command_uidl, list_unique_ids}

-- No two of the texts are the same.
abbrev pub AllDistinct : List Text → Type 0
AllDistinct [] = Unit
AllDistinct (t ∷ ts) = All (λ u. t ≢ u) ts × AllDistinct ts

mem_text-All : (t : Text) (ts : List Text) → (mem_text t ts ≡ false) ↔ All (λ u. t ≢ u) ts
unfolding mem_text
mem_text-All t [] = (λ h. tt, λ h. refl)
mem_text-All t (u ∷ us) = elim (Bool-cases (text_eq t u)) [
  | inl e ↦ rw e (λ h. cc, λ h. absurd (h.0 (text_eq→eq t u e)))
  | inr e ↦ rw e (
    λ h. (
      (λ same.
          let r : text_eq t u ≡ true = subst (λ v. text_eq t v ≡ true) same (text_eq_refl t) in cc),
      (mem_text-All t us).0 h,
    ),
    λ h. (mem_text-All t us).1 h.1,
  )
]

all_different-AllDistinct : (ts : List Text) → (all_different ts ≡ true) ↔ AllDistinct ts
unfolding all_different
all_different-AllDistinct [] = (λ h. tt, λ h. refl)
all_different-AllDistinct (t ∷ ts) =
    let (absent, present) = mem_text-All t ts in
    let (there, back) = all_different-AllDistinct ts in
    (λ h. (absent (ground arith), there (ground arith)), λ h. rw (present h.0, back h.1) refl)

-- One line of the answer: the message number and the unique ID.
abbrev pub unique_id_line : (ℕ → Text) → ℕ → Text
unique_id_line unique_id index = two_fields (to_decimal (index + 1)) (unique_id index)

module _ {S : Type 0} (env : Env S) (mailbox : Mailbox) (w : World S)
    (shows : Shows env.adapter w.status.encoding w.adapter mailbox) where
  abbrev messages : List ℕ
  messages = visible mailbox w.status.read_only_mailbox_access

  module _ (unique_id : ℕ → Text)
      (gives : (i : ℕ)
        → i < mailbox.message_count
        → seen mailbox w.status.read_only_mailbox_access i ≡ false
        → (env.adapter.get_message_unique_id i w.adapter ≡ (ok (unique_id i), w.adapter))
          × (matches_unique_id (unique_id i) ≡ true)) where
    abbrev listed : Response
    listed =
        ok_multiline (text "Listing all messages' unique IDs")
          (join crlf (map (unique_id_line unique_id) messages)) false

    command_uidl_by_test : command_uidl env [] w ≡ (
      raised (send_data (if all_different (map unique_id messages) then listed else err_internal)),
      w,
    )
    unfolding ◌>>=◌ command_uidl list_unique_ids check_argument_count mem_count
        convert_index_to_message_number
    command_uidl_by_test =
        let answered =
          get_all_undeleted_messages_unique_ids_lem env mailbox w shows unique_id gives in
        elim (Bool-cases (all_different (map unique_id messages))) [
          | inl e ↦
              rw (answered, e)
                (ap
                  (λ lines. (
                    raised (
                        send_data (
                          ok_multiline (text "Listing all messages' unique IDs") (join crlf lines)
                            false)),
                    w,
                  ))
                  (map-map _ _ messages))
          | inr e ↦ rw (answered, e) refl
        ]

    -- If the adapter shows a mailbox and gives unique IDs of the allowed form for the messages without a
    -- mark, UIDL changes nothing; it answers a line for each of them, in order, with its number and its
    -- ID, exactly when no two IDs are the same, and with an internal error exactly when two are.
    pub command_uidl-distinct :
        ((command_uidl env [] w ≡ (raised (send_data listed), w))
          ↔ AllDistinct (map unique_id messages))
        × ((command_uidl env [] w ≡ (raised (send_data err_internal), w))
            ↔ ¬ AllDistinct (map unique_id messages))
    unfolding ok_multiline err_internal err_response
    command_uidl-distinct =
        let (there, back) = all_different-AllDistinct (map unique_id messages) in
        rw command_uidl_by_test (elim (Bool-cases (all_different (map unique_id messages))) [
          | inl e ↦ rw e ((λ h. there e, λ d. refl), (λ h. cc, λ n. absurd (n (there e))))
          | inr e ↦
              rw e ((λ h. cc, λ d. let f = back d in cc), (λ h d. let f = back d in cc, λ n. refl))
        ])
