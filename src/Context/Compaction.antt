-- ===== src/Context/Compaction.antt =====
-- A compaction survives the session that made it (contextManagementStore.ts).
use Prim.Native.String
use text.Mathlib.TextLemmas.{cons-append}
use encore_hub.Shared.{
  ℕ, zero, suc, ◌+◌, ◌-◌, ◌≤◌, ◌<◌, String, Bool, Bool-cases, true, false, ◌||◌, ◌≡◌, ◌∙◌, ap, sym,
  subst, refl, inl, inr, Option, Option-cases, none, some, List, [], ◌∷◌, ◌++◌, arith, length,
  get_elem?, take, drop_last, last?, Assoc, lookup, insert, lookup-insert, is_empty, is_some,
  or_else, str_eq, eq_iff, eq_refl, if◌then◌else◌,
}
use encore_hub.Models.{Message}
use encore_hub.Context.{CompactionState}
use encore_hub.Context.Summary.{
  sum_tokens, archived_messages, kept_recently, build_compaction_summary, preview_state,
  summary_text,
}
use encore_hub.Context.Store.{
  ContextState, message_id, with_range, store_preview, compact_conversation, restore_compaction,
  restored_compaction, restored_keep, end_index,
}
use encore_hub.Context.Archive.{HasDistinctIds, last-end_index, kept_bounds}

guarded_some :
    (b : Bool) (x r : CompactionState)
    → (if b then none else some x) ≡ some r
    → (b ≡ false) × (r ≡ x)
guarded_some true x r h = cc
guarded_some false x r h = (refl, cc)

-- A preview that was built leaves at least one message archived.
built_length :
    (messages : List Message) (now : ℕ) (r : CompactionState)
    → build_compaction_summary messages now ≡ some r
    → (4 ≤ length messages) × (r ≡ preview_state messages now)
unfolding build_compaction_summary
built_length messages now r h =
    let (test, same) = guarded_some _ (preview_state messages now) r h in (ground arith, same)

archived_nonzero :
    (kept : ℕ) (xs : List Message)
    → 0 < kept
    → kept < length xs
    → archived_messages kept xs ≡ take (suc (length xs - kept - 1)) xs
archived_nonzero kept xs pos room =
    let size : length xs - kept ≡ suc (length xs - kept - 1) = omega arith in
    let test : archived_messages kept xs ≡ take (length xs - kept) xs = ground arith in
    test ∙ ap (λ k. take k xs) size

drop_last_archived :
    (kept : ℕ) (xs : List Message) → 0 < kept → drop_last kept xs ≡ archived_messages kept xs
drop_last_archived kept xs pos = ground arith

abbrev restored_fields : String → ℕ → ℕ → ℕ → Option String → Option String → CompactionState
restored_fields text kept tokens later start finish = record {
  summary = text;
  keep_recent = kept;
  source_tokens = tokens;
  created_at = later;
  start_message_id = start;
  end_message_id = finish;
  source = none;
}

take-appended : (n : ℕ) (xs ys : List Message) → n ≤ length xs → take n (xs ++ ys) ≡ take n xs
take-appended zero xs ys h = refl
take-appended (suc n) [] ys h = absurd (omega arith)
take-appended (suc n) (x ∷ xs) ys h = ap (λ r. x ∷ r) (take-appended n xs ys (omega arith))

length-appended : (xs ys : List Message) → length (xs ++ ys) ≡ length xs + length ys
length-appended [] ys = omega arith
length-appended (x ∷ xs) ys = omega (arith, length-appended xs ys)

-- The messages that a compaction archives are still those where it is read against a longer list.
archived-appended :
    (kept : ℕ) (xs added : List Message)
    → 0 < kept
    → kept < length xs
    → archived_messages (kept + length added) (xs ++ added) ≡ archived_messages kept xs
archived-appended kept xs added pos room =
    let size = length-appended xs added in
    let left : length (xs ++ added) - (kept + length added) ≡ length xs - kept =
      omega (arith, size) in
    archived_nonzero (kept + length added) (xs ++ added) (omega arith) (omega (arith, size))
    ∙ ap (λ k. take (suc (k - 1)) (xs ++ added)) left
    ∙ take-appended (suc (length xs - kept - 1)) xs added (omega arith)
    ∙ sym (archived_nonzero kept xs pos room)

restored_ranged :
    (messages added : List Message) (now later : ℕ) (finish : String)
    → HasDistinctIds (messages ++ added)
    → 4 ≤ length messages
    → let c =
        with_range
          (preview_state messages now)
          (archived_messages (kept_recently messages) messages) in
      c.end_message_id ≡ some finish
      → is_empty finish ≡ false
      → restored_compaction c.summary c.start_message_id (some finish) (messages ++ added) later
        ≡ record c { keep_recent = c.keep_recent + length added; created_at = later; source = none }
unfolding with_range restored_compaction preview_state
restored_ranged messages added now later finish d len h full =
    let kept = kept_recently messages in
    let (two, room) = kept_bounds messages len in
    let all = messages ++ added in
    let size = length-appended messages added in
    let n = length messages - kept - 1 in
    let archived : archived_messages kept messages ≡ take (suc n) messages =
      archived_nonzero kept messages (omega arith) room in
    let place : end_index (some finish) all ≡ some n =
      last-end_index n all finish d (omega (arith, size))
        (subst (λ xs. message_id (last? xs) ≡ some finish)
          (archived ∙ sym (take-appended (suc n) messages added (omega arith))) h)
        full in
    let back : length all - n - 1 ≡ kept + length added = omega (arith, size) in
    let start = message_id (get_elem? (archived_messages kept messages) 0) in
    let text = (preview_state messages now).summary in
    ap
      (λ k. restored_fields text k (sum_tokens (archived_messages k all)) later start (some finish))
      (ap (λ o. restored_keep o all) place ∙ back)
    ∙ (ap (λ t. restored_fields text (kept + length added) (sum_tokens t) later start (some finish))
          (archived-appended kept messages added (omega arith) room
            ∙ sym (drop_last_archived kept messages (omega arith)))
        ∙ ap
            (λ f.
              restored_fields text (kept + length added) (sum_tokens (drop_last kept messages))
                later start f)
            (sym h))

abbrev ranged_preview : List Message → ℕ → CompactionState
ranged_preview messages now =
    with_range (preview_state messages now) (archived_messages (kept_recently messages) messages)

lookup-insert_self :
    (id : String) (c : CompactionState) (d : Assoc CompactionState)
    → lookup id (insert id c d) ≡ some c
lookup-insert_self id c d = lookup-insert id id c d ∙ ground (arith, eq_refl id)

pub stored_none :
    (id : String) (messages : List Message) (s : ContextState) (o : Option CompactionState)
    → o ≡ none
    → lookup id (store_preview id messages o s).0.compactions ≡ lookup id s.compactions
unfolding store_preview
stored_none id messages s none e = refl
stored_none id messages s (some r) e = cc

pub stored_some :
    (id : String) (messages : List Message) (s : ContextState) (o : Option CompactionState)
    (r : CompactionState)
    → o ≡ some r
    → lookup id (store_preview id messages o s).0.compactions
      ≡ some (with_range r (archived_messages r.keep_recent messages))
unfolding store_preview
stored_some id messages s none r e = cc
stored_some id messages s (some q) r e =
    let same : q ≡ r = cc in
    subst
      (λ p.
        lookup id (store_preview id messages (some q) s).0.compactions
        ≡ some (with_range p (archived_messages p.keep_recent messages)))
      same
      (lookup-insert_self id (with_range q (archived_messages q.keep_recent messages))
        s.compactions)

ranged_preview_lem :
    (messages : List Message) (now : ℕ)
    → let p = preview_state messages now in
      with_range p (archived_messages p.keep_recent messages) ≡ ranged_preview messages now
unfolding preview_state
ranged_preview_lem messages now = refl

lookup-compact_conversation :
    (id : String) (messages : List Message) (now : ℕ) (s : ContextState) (c : CompactionState)
    → lookup id s.compactions ≡ none
    → lookup id (compact_conversation id messages now s).0.compactions ≡ some c
    → (4 ≤ length messages) × (c ≡ ranged_preview messages now)
unfolding compact_conversation
lookup-compact_conversation id messages now s c fresh h =
    elim (Option-cases (build_compaction_summary messages now)) [
      | inl e ↦ let old = stored_none id messages s _ e in let no : ⊥ = cc in absurd no
      | inr (r, e) ↦
          let (len, same) = built_length messages now r e in
          let made = stored_some id messages s _ r e in
          let here : c ≡ with_range r (archived_messages r.keep_recent messages) = cc in
          (
            len,
            here
                ∙ ap (λ p. with_range p (archived_messages p.keep_recent messages)) same
                ∙ ranged_preview_lem messages now,
          )
    ]

lookup-restore_compaction :
    (id text : String) (start finish : Option String) (messages : List Message) (later : ℕ)
    (s : ContextState)
    → is_empty text ≡ false
    → lookup id s.compactions ≡ none
    → lookup id (restore_compaction id (some text) start finish messages later s).compactions
      ≡ some (restored_compaction text start finish messages later)
unfolding restore_compaction
lookup-restore_compaction id text start finish messages later s full fresh =
    rw (full, fresh) (lookup-insert_self id _ s.compactions)

append-full : (a b : String) → is_empty a ≡ false → is_empty (String.◌++◌ a b) ≡ false
append-full String.[] b h = cc
append-full (String.◌∷◌ c a) b h = ap is_empty (cons-append c a b)

preview-full :
    (messages : List Message) (now : ℕ) → is_empty (preview_state messages now).summary ≡ false
unfolding preview_state summary_text
preview-full messages now = append-full _ _ refl

-- The stored fields of a compaction restore to it, but for its time and its source, where the
-- number of messages that it keeps counts those added since.
unfoldable pub Restores :
    String → String → List Message → List Message → ℕ → ContextState → CompactionState → Type 0
Restores id finish messages added later s c =
    lookup id
      (restore_compaction id (some c.summary) c.start_message_id (some finish) (messages ++ added)
        later s).compactions
    ≡ some
        (record c { keep_recent = c.keep_recent + length added; created_at = later; source = none })

-- A summary that a compaction of some messages made and the Gateway stored restores, in a later
-- session without a compaction of its own for the conversation and in which any messages may have
-- been added behind those, to a compaction with the same summary, ends and archived tokens: its
-- time is the later one, its source none, and it keeps the messages that the first one kept and
-- all the added ones. The messages, with the added ones, have distinct ids, there was no compaction
-- before, and the last archived message's id is not empty.
pub restore-compact :
    (id finish : String) (messages added : List Message) (now later : ℕ) (s s' : ContextState)
    (c : CompactionState)
    → HasDistinctIds (messages ++ added)
    → lookup id s.compactions ≡ none
    → lookup id (compact_conversation id messages now s).0.compactions ≡ some c
    → c.end_message_id ≡ some finish
    → is_empty finish ≡ false
    → lookup id s'.compactions ≡ none
    → Restores id finish messages added later s' c
unfolding Restores with_range
restore-compact id finish messages added now later s s' c d fresh made ends full fresh' =
    let (len, same) = lookup-compact_conversation id messages now s c fresh made in
    subst (λ x. Restores id finish messages added later s' x) (sym same)
      (lookup-restore_compaction id _ _ (some finish) (messages ++ added) later s'
          (preview-full messages now) fresh'
        ∙ ap some (
            restored_ranged messages added now later finish d len
              (ap (λ x. x.end_message_id) (sym same) ∙ ends) full))

restored_at :
    (id j text : String) (start finish : Option String) (messages : List Message) (now : ℕ)
    (s : ContextState)
    → is_some (lookup id s.compactions) ≡ false
    → str_eq id j ≡ false
    → lookup j (insert id (restored_compaction text start finish messages now) s.compactions)
      ≡ lookup j s.compactions
restored_at id j text start finish messages now s absent other =
    ground
      (arith, lookup-insert id j (restored_compaction text start finish messages now) s.compactions)

-- Restoring a stored summary, whatever it is and for whatever conversation, changes no compaction
-- that the session has.
pub restore_compaction-keeps :
    (id j : String) (summary start finish : Option String) (messages : List Message) (now : ℕ)
    (s : ContextState) (c : CompactionState)
    → lookup j s.compactions ≡ some c
    → lookup j (restore_compaction id summary start finish messages now s).compactions ≡ some c
unfolding restore_compaction
restore_compaction-keeps id j summary start finish messages now s c h =
    let text = or_else summary "" in
    elim (Bool-cases (is_empty text || is_some (lookup id s.compactions))) [
      | inl e ↦ rw e h
      | inr e ↦ rw e (
          restored_at id j text start finish messages now s (ground arith)
            (ground (arith, eq_iff id j, h))
          ∙ h)
    ]
