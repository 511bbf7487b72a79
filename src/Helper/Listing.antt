-- ===== src/Helper/Listing.antt =====
-- What STAT, LIST and UIDL say of a mailbox, against a description of the mailbox.
use pop3sf.Prelude.{
  ℕ, zero, suc, ◌+◌, ◌<◌, ◌≡◌, refl, sym, ap, ◌∙◌, inl, inr, Bool, true, false, Bool-cases, some,
  List, [], ◌∷◌, ◌++◌, append_assoc, append-nil, map, length, pos, arith, if◌then◌else◌, ◌==◌,
}
use pop3sf.Text.{
  Text, crlf, join, split_lines_without_discarding_empty_lines, canonicalize_newlines,
  convert_index_to_message_number,
}
use pop3sf.Text.Encoding.{Bytes, Encoding, encode}
use mathlib.Core.List.{map-map}
use pop3sf.Response.{err_internal}
use pop3sf.Adapter.{Adapter, ok, raised, send_data}
use pop3sf.Session.{World, Exec, pure, ◌>>=◌}
use pop3sf.Helper.{
  get_message_unique_id, get_all_undeleted_messages_unique_ids, matches_unique_id, all_different,
  respond, get_headers_and_first_n_lines_of_a_message, requested_lines, mark_message_as_deleted,
  Env, count_undeleted, get_undeleted_message_count, is_message_marked_as_deleted,
  collect_undeleted, get_message_count, get_message_content, get_message_size, size_of,
  get_all_undeleted_messages_sizes,
}

-- The messages of a mailbox, as a session sees them.
pub record Mailbox : Type 0 where
  pub message_count : ℕ
  pub deleted : ℕ → Bool
  pub content : ℕ → Text

-- The indices from one on, of so many messages, that have no mark.
abbrev pub undeleted : (ℕ → Bool) → ℕ → ℕ → List ℕ
undeleted deleted zero index = []
undeleted deleted (suc rounds) index =
    let rest = undeleted deleted rounds (index + 1) in if deleted index then rest else index ∷ rest

-- The adapter answers what the mailbox is, and answering does not change its state.
pub record Shows {S : Type 0} (adapter : Adapter S) (encoding : Encoding) (s : S)
    (mailbox : Mailbox) : Type 0 where
  pub shows_count : adapter.get_message_count s ≡ (ok (pos mailbox.message_count), s)
  pub shows_deleted :
      (index : ℕ)
      → index < mailbox.message_count
      → adapter.is_message_marked_as_deleted index s ≡ (ok (mailbox.deleted index), s)
  pub shows_content :
      (index : ℕ)
      → index < mailbox.message_count
      → adapter.get_message_content index encoding s ≡ (ok (mailbox.content index), s)

-- The marks that a session sees: in read-only mode none.
abbrev pub seen : Mailbox → Bool → ℕ → Bool
seen mailbox read_only index = if read_only then false else mailbox.deleted index

-- The indices of the messages that a session sees.
abbrev pub visible : Mailbox → Bool → List ℕ
visible mailbox read_only = undeleted (seen mailbox read_only) mailbox.message_count 0

-- The mailbox with a mark on one message more, and without marks.
abbrev pub with_mark : ℕ → Mailbox → Mailbox
with_mark index mailbox = record mailbox {
  deleted = λ i. if index == i then true else mailbox.deleted i;
}

abbrev pub without_marks : Mailbox → Mailbox
without_marks mailbox = record mailbox { deleted = λ i. false }

-- The adapter puts a mark on a message that has none, and takes all marks away.
pub record Marks {S : Type 0} (adapter : Adapter S) (encoding : Encoding) : Type 0 where
  pub marks :
      (s : S) (mailbox : Mailbox)
      → Shows adapter encoding s mailbox
      → (index : ℕ) → index < mailbox.message_count
      → (s' : S) × (adapter.mark_message_as_deleted index s ≡ (ok tt, s'))
        × Shows adapter encoding s' (with_mark index mailbox)
  pub unmarks :
      (s : S) (mailbox : Mailbox)
      → Shows adapter encoding s mailbox
      → (s' : S) × (adapter.unmark_messages_marked_as_deleted s ≡ (ok tt, s'))
        × Shows adapter encoding s' (without_marks mailbox)

module _ {S : Type 0} (env : Env S) where
  -- Returns that value, and leaves everything as it is.
  abbrev Returns : {A : Type 0} → Exec S A → A → World S → Type 0
  Returns m a w = m w ≡ (ok a, w)

  count_undeleted_lem :
      (deleted : ℕ → Bool) (w : World S) (rounds index count : ℕ)
      → ((i : ℕ) → i < index + rounds → Returns (is_message_marked_as_deleted env i) (deleted i) w)
      → Returns
          (count_undeleted env rounds index count)
          (count + length (undeleted deleted rounds index))
          w
  unfolding ◌>>=◌ count_undeleted
  count_undeleted_lem deleted w zero index count h = ap (λ n. (ok n, w)) (omega arith)
  count_undeleted_lem deleted w (suc rounds) index count h =
      rw (h index (omega arith)) (elim (Bool-cases (deleted index)) [
        | inl e ↦ rw e (count_undeleted_lem deleted w rounds (index + 1) count later)
        | inr e ↦ rw e (
            count_undeleted_lem deleted w rounds (index + 1) (count + 1) later
            ∙ ap (λ n. (ok n, w)) (omega arith))
      ])
    where
      later :
          (i : ℕ)
          → i < index + 1 + rounds
          → is_message_marked_as_deleted env i w ≡ (ok (deleted i), w)
      later i l = h i (omega arith)

  collect_undeleted_lem :
      {A : Type 0} (get : ℕ → Exec S A) (value : ℕ → A) (deleted : ℕ → Bool) (w : World S)
      (rounds index : ℕ) (entries : List (ℕ × A))
      → ((i : ℕ) → i < index + rounds → Returns (is_message_marked_as_deleted env i) (deleted i) w)
      → ((i : ℕ) → i < index + rounds → deleted i ≡ false → Returns (get i) (value i) w)
      → Returns
          (collect_undeleted env get rounds index entries)
          (entries
            ++ map
                (λ i. (convert_index_to_message_number i, value i))
                (undeleted deleted rounds index))
          w
  unfolding ◌>>=◌ collect_undeleted
  collect_undeleted_lem get value deleted w zero index entries h k =
      ap (λ l. (ok l, w)) (sym (append-nil entries))
  collect_undeleted_lem get value deleted w (suc rounds) index entries h k =
      rw (h index (omega arith)) (elim (Bool-cases (deleted index)) [
        | inl e ↦ rw e (
            collect_undeleted_lem get value deleted w rounds (index + 1) entries
              (λ i l. h i (omega arith)) (λ i l. k i (omega arith)))
        | inr e ↦
            rw (e, k index (omega arith) e)
              (collect_undeleted_lem get value deleted w rounds (index + 1)
                  (entries ++ (convert_index_to_message_number index, value index) ∷ [])
                  (λ i l. h i (omega arith)) (λ i l. k i (omega arith))
                ∙ ap (λ l. (ok l, w)) (append_assoc entries _ _))
      ])

  module _ (mailbox : Mailbox) (w : World S)
      (shows : Shows env.adapter w.status.encoding w.adapter mailbox) where
    abbrev mode : Bool
    mode = w.status.read_only_mailbox_access

    pub is_message_marked_as_deleted-eq-seen :
        (i : ℕ)
        → i < mailbox.message_count
        → Returns (is_message_marked_as_deleted env i) (seen mailbox mode i) w
    unfolding ◌>>=◌ is_message_marked_as_deleted
    is_message_marked_as_deleted-eq-seen i l = elim (Bool-cases mode) [
      | inl e ↦ rw e refl
      | inr e ↦ rw (e, shows.shows_deleted i l) refl
    ]

    pub get_message_count_lem : Returns (get_message_count env) mailbox.message_count w
    unfolding ◌>>=◌ get_message_count
    get_message_count_lem = rw shows.shows_count refl

    pub get_undeleted_message_count_lem :
        Returns (get_undeleted_message_count env) (length (visible mailbox mode)) w
    unfolding ◌>>=◌ get_undeleted_message_count
    get_undeleted_message_count_lem = rw get_message_count_lem (
        count_undeleted_lem (seen mailbox mode) w mailbox.message_count 0 0
          (λ i l. is_message_marked_as_deleted-eq-seen i (omega arith))
        ∙ ap (λ n. (ok n, w)) (omega arith))

    pub get_all_undeleted_messages_sizes_lem :
        (bytes : ℕ → Bytes)
        → ((i : ℕ)
            → i < mailbox.message_count
            → seen mailbox mode i ≡ false
            → encode w.status.encoding (canonicalize_newlines (mailbox.content i)) ≡ some (bytes i))
        → Returns
            (get_all_undeleted_messages_sizes env)
            (map
              (λ i. (convert_index_to_message_number i, length (bytes i)))
              (visible mailbox mode))
            w
    unfolding ◌>>=◌ get_all_undeleted_messages_sizes get_message_size get_message_content size_of
    get_all_undeleted_messages_sizes_lem bytes encodes = rw get_message_count_lem (
        collect_undeleted_lem (get_message_size env) (λ i. length (bytes i)) (seen mailbox mode) w
          mailbox.message_count 0 [] (λ i l. is_message_marked_as_deleted-eq-seen i (omega arith))
          (λ i l e. size i (omega arith) e))
      where
        size :
            (i : ℕ)
            → i < mailbox.message_count
            → seen mailbox mode i ≡ false
            → Returns (get_message_size env i) (length (bytes i)) w
        size i l e = rw (shows.shows_content i l, encodes i l e) refl

  module _ (mailbox : Mailbox) (w : World S)
      (shows : Shows env.adapter w.status.encoding w.adapter mailbox) where
    pub get_all_undeleted_messages_unique_ids_lem :
        (unique_id : ℕ → Text)
        → ((i : ℕ)
            → i < mailbox.message_count
            → seen mailbox w.status.read_only_mailbox_access i ≡ false
            → (env.adapter.get_message_unique_id i w.adapter ≡ (ok (unique_id i), w.adapter))
              × (matches_unique_id (unique_id i) ≡ true))
        → let messages = visible mailbox w.status.read_only_mailbox_access in
          get_all_undeleted_messages_unique_ids env w ≡ (
            (if all_different (map unique_id messages)
                then ok (map (λ i. (convert_index_to_message_number i, unique_id i)) messages)
                else raised (send_data err_internal)),
            w,
          )
    unfolding ◌>>=◌ get_all_undeleted_messages_unique_ids get_message_unique_id
    get_all_undeleted_messages_unique_ids_lem unique_id gives =
        rw (get_message_count_lem mailbox w shows, collected, map-map)
          (if_returns (all_different (map unique_id messages)) _)
      where
        if_returns :
            (b : Bool) (entries : List (ℕ × Text))
            → (if b then pure entries else respond err_internal) w
              ≡ ((if b then ok entries else raised (send_data err_internal)), w)
        if_returns true entries = refl
        if_returns false entries = refl

        messages : List ℕ
        messages = visible mailbox w.status.read_only_mailbox_access

        one :
            (i : ℕ)
            → i < mailbox.message_count
            → seen mailbox w.status.read_only_mailbox_access i ≡ false
            → Returns (get_message_unique_id env i) (unique_id i) w
        one i l e = let (given, valid) = gives i l e in rw (given, valid) refl

        collected :
            Returns
              (collect_undeleted env (get_message_unique_id env) mailbox.message_count 0 [])
              (map
                (λ i. (convert_index_to_message_number i, unique_id i))
                (visible mailbox w.status.read_only_mailbox_access))
              w
        collected =
            collect_undeleted_lem (get_message_unique_id env) unique_id
              (seen mailbox w.status.read_only_mailbox_access) w mailbox.message_count 0 []
              (λ i l. is_message_marked_as_deleted-eq-seen mailbox w shows i (omega arith))
              (λ i l e. one i (omega arith) e)

  pub get_headers_and_first_n_lines_of_a_message_lem :
      (w : World S) (index n : ℕ) (content : Text)
      → env.adapter.get_message_content index w.status.encoding w.adapter ≡ (ok content, w.adapter)
      → get_headers_and_first_n_lines_of_a_message env index n w ≡ (
        ok (join crlf (requested_lines n (split_lines_without_discarding_empty_lines content))),
        w,
      )
  unfolding ◌>>=◌ get_headers_and_first_n_lines_of_a_message get_message_content
  get_headers_and_first_n_lines_of_a_message_lem w index n content e = rw e refl

  pub mark_message_as_deleted_lem :
      (w : World S) (index : ℕ) (s' : S)
      → w.status.read_only_mailbox_access ≡ false
      → env.adapter.mark_message_as_deleted index w.adapter ≡ (ok tt, s')
      → mark_message_as_deleted env index w ≡ (ok tt, record w { adapter = s' })
  unfolding ◌>>=◌ mark_message_as_deleted
  mark_message_as_deleted_lem w index s' writes e = rw (writes, e) refl
