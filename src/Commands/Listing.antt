-- ===== src/Commands/Listing.antt =====
-- What STAT and LIST answer, and which message numbers the commands take, against a description of the
-- mailbox.
use mathlib.Core.List.{foldl, map-map}
use pop3sf.Prelude.{
  ℕ, zero, suc, ◌+◌, ◌<◌, ◌≡◌, refl, ap, ◌∙◌, subst, inl, inr, Bool, true, false, Bool-cases,
  Option, ℤ, negsuc, leb→le, none, some, List, [], ◌∷◌, ◌↔◌, ◌≤◌, map, length, pos, arith,
  if◌then◌else◌, ==_iff, leb,
}
use pop3sf.Text.{Text, text, crlf, join, canonicalize_newlines, convert_index_to_message_number}
use pop3sf.Text.Decimal.{to_decimal, int}
use pop3sf.Text.Encoding.{Bytes, encode}
use pop3sf.Response.{err_response, ok_human_unreadable, ok_multiline}
use pop3sf.Adapter.{ok, raised, send_data}
use pop3sf.Session.{World, pure, ◌>>=◌}
use pop3sf.Helper.{Env, respond}
use pop3sf.Helper.Listing.{
  Mailbox, Shows, seen, visible, undeleted, get_undeleted_message_count_lem,
  get_all_undeleted_messages_sizes_lem, get_message_count_lem, is_message_marked_as_deleted-eq-seen,
}
use pop3sf.Commands.Arguments.{
  two_fields, mem_count, check_index, check_not_deleted, check_number, check_argument_count,
  parse_message_number_argument_to_index,
}
use pop3sf.Commands.Transaction.{command_stat, command_list, list_sizes}

-- Whether the index is among the messages.
undeleted-mem :
    (deleted : ℕ → Bool) (rounds first index : ℕ)
    → (mem_count index (undeleted deleted rounds first) ≡ true)
      ↔ (first ≤ index) × (index < first + rounds) × (deleted index ≡ false)
unfolding mem_count
undeleted-mem deleted zero first index = (λ h. cc, λ h. absurd (omega (arith, h.0, h.1)))
undeleted-mem deleted (suc rounds) first index =
    let ih = undeleted-mem deleted rounds (first + 1) index in grind (arith, ==_iff index first)

pub visible-below :
    (mailbox : Mailbox) (read_only : Bool) (index : ℕ)
    → mem_count index (visible mailbox read_only) ≡ true
    → index < mailbox.message_count
visible-below mailbox read_only index listed =
    let (in_range, in_list) =
      undeleted-mem (seen mailbox read_only) mailbox.message_count 0 index in
    omega (arith, (in_range listed).1)

abbrev pub sum : List ℕ → ℕ
sum [] = 0
sum (n ∷ ns) = n + sum ns

foldl-map-eq-sum :
    {A B : Type 0} (f : B → ℕ) (g : A → B) (n : ℕ) (items : List A)
    → foldl (λ carry b. carry + f b) n (map g items) ≡ n + sum (map (λ a. f (g a)) items)
foldl-map-eq-sum f g n [] = omega arith
foldl-map-eq-sum f g n (a ∷ items) = foldl-map-eq-sum f g (n + f (g a)) items ∙ omega arith

-- One line of a listing: the message number and the size.
abbrev pub listing_line : (ℕ → Bytes) → ℕ → Text
listing_line bytes index = two_fields (to_decimal (index + 1)) (to_decimal (length (bytes index)))

module _ {S : Type 0} (env : Env S) (mailbox : Mailbox) (w : World S)
    (shows : Shows env.adapter w.status.encoding w.adapter mailbox) where
  abbrev is_marked : ℕ → Bool
  is_marked = seen mailbox w.status.read_only_mailbox_access

  abbrev messages : List ℕ
  messages = visible mailbox w.status.read_only_mailbox_access

  -- If the adapter shows a mailbox whose messages can be encoded, STAT answers the number of the messages
  -- without a mark (in read-only mode, of all messages) and the sum of their sizes, LIST answers a line
  -- for each of them, in order, with its number and its size, and neither changes anything.
  pub command_stat-command_list :
      (bytes : ℕ → Bytes)
      → ((i : ℕ)
          → i < mailbox.message_count
          → is_marked i ≡ false
          → encode w.status.encoding (canonicalize_newlines (mailbox.content i)) ≡ some (bytes i))
      → (command_stat env [] w ≡ (
        raised (
            send_data (
              ok_human_unreadable (
                two_fields
                  (to_decimal (length messages))
                  (to_decimal (sum (map (λ i. length (bytes i)) messages)))))),
        w,
      ))
        × (command_list env [] w ≡ (
          raised (
              send_data (
                ok_multiline
                  (text "Listing all messages' sizes")
                  (join crlf (map (listing_line bytes) messages))
                  false)),
          w,
        ))
  unfolding ◌>>=◌ command_stat command_list list_sizes check_argument_count mem_count
      convert_index_to_message_number
  command_stat-command_list bytes encodes = (
    rw
        (
          get_undeleted_message_count_lem env mailbox w shows,
          get_all_undeleted_messages_sizes_lem env mailbox w shows bytes encodes,
        )
        (ap
          (λ total. (
            raised (
                send_data (
                  ok_human_unreadable
                    (two_fields (to_decimal (length messages)) (to_decimal total)))),
            w,
          ))
          (foldl-map-eq-sum (λ e. e.1) (λ i. (convert_index_to_message_number i, length (bytes i)))
              0 messages
            ∙ omega arith)),
    rw (get_all_undeleted_messages_sizes_lem env mailbox w shows bytes encodes) (
        ap
          (λ lines. (
            raised (
                send_data
                  (ok_multiline (text "Listing all messages' sizes") (join crlf lines) false)),
            w,
          ))
          (map-map _ _ messages)),
  )

  if_seen :
      (k index : ℕ) (b : Bool)
      → is_marked k ≡ b
      → k < mailbox.message_count
      → ((if b
              then respond {A = ℕ}
                  (err_response (text "Invalid message number (message marked as deleted)") none)
              else pure k)
            w
          ≡ (ok index, w))
        ↔ (k ≡ index) × (index < mailbox.message_count) × (is_marked index ≡ false)
  unfolding ◌>>=◌
  if_seen k index true e l = (λ h. cc, λ h. cc)
  if_seen k index false e l = (
    λ h.
        let same : k ≡ index = cc in
        subst (λ i. (k ≡ i) × (i < mailbox.message_count) × (is_marked i ≡ false)) same
          (refl, l, e),
    λ h. cc,
  )

  check_index_lem :
      (k index : ℕ)
      → (check_index env (pos k) w ≡ (ok index, w))
        ↔ (k ≡ index) × (index < mailbox.message_count) × (is_marked index ≡ false)
  unfolding ◌>>=◌ check_index check_not_deleted
  check_index_lem k index =
      rw (get_message_count_lem env mailbox w shows)
        (elim (Bool-cases (leb mailbox.message_count k)) [
          | inl e ↦ rw e (λ h. cc, λ h. absurd (omega (arith, leb→le _ _ e, h.0, h.1)))
          | inr e ↦
              rw (e, is_message_marked_as_deleted-eq-seen env mailbox w shows k (grind arith))
                (if_seen k index (is_marked k) refl (grind arith))
        ])

  check_number_lem :
      (number : Option ℤ) (index : ℕ)
      → (check_number env number w ≡ (ok index, w))
        ↔ (number ≡ some (pos (suc index)))
          × (index < mailbox.message_count)
          × (is_marked index ≡ false)
  unfolding ◌>>=◌ check_number check_index
  check_number_lem none index = (λ h. cc, λ h. cc)
  check_number_lem (some (negsuc n)) index = (λ h. cc, λ h. cc)
  check_number_lem (some (pos zero)) index =
      (λ h. cc, λ h. let e : zero ≡ suc index = cc in absurd (omega (arith, e)))
  check_number_lem (some (pos (suc k))) index =
      let (there, back) = check_index_lem k index in
      (
        λ h. let (e, l, m) = there h in (ap (λ n. some (pos (suc n))) e, l, m),
        λ h. back (let e : suc k ≡ suc index = cc in omega (arith, e), h.1, h.2),
      )

  -- If the adapter shows a mailbox, an argument is taken as the index of a message, without any change,
  -- exactly when it is a number, by one greater, of a message that LIST lists.
  pub parse_message_number_argument_to_index-accepts :
      (a : Text) (index : ℕ)
      → (parse_message_number_argument_to_index env a w ≡ (ok index, w))
        ↔ (int env.unicode a ≡ some (pos (suc index))) × (mem_count index messages ≡ true)
  unfolding parse_message_number_argument_to_index
  parse_message_number_argument_to_index-accepts a index =
      let (there, back) = check_number_lem (int env.unicode a) index in
      let (in_list, in_range) = undeleted-mem (is_marked) mailbox.message_count 0 index in
      (
        λ h. let (e, l, m) = there h in (e, in_range (omega arith, omega arith, m)),
        λ h. let (p, q, m) = in_list h.1 in back (h.0, omega arith, m),
      )
