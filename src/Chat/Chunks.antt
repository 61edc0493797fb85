-- ===== src/Chat/Chunks.antt =====
-- The blocks of a stream do not depend on how the text is cut into chunks (chat.ts).
use Prim.Native.String
use Prim.Native.Char.{Char, code}
use text.Mathlib.TextLemmas
use text.Mathlib.TextLemmas.{cons-append}
use encore_hub.Shared.{
  ℕ, zero, suc, ◌≤◌, ◌<◌, String, Bool-cases, true, false, ◌&&◌, ◌≡◌, ◌∙◌, ap, sym, subst, refl,
  inl, inr, Option, Option-cases, none, some, List, [], ◌∷◌, ◌++◌, arith,
}
use encore_hub.Chat.Frames.{
  chars, is_newline, starts_newline, after_first, before_cut, cut_block, drain, drain_all,
  read_chunks,
}

chars-cons : (c : Char) (s : String) → chars (String.◌∷◌ c s) ≡ suc (chars s)
unfolding chars
chars-cons c s = refl

after_first-shorter : (s : String) → chars (after_first s) ≤ chars s
unfolding chars
after_first-shorter String.[] = omega arith
after_first-shorter (String.◌∷◌ c s) = omega arith

before_cut-some :
    (o : Option (String × String)) (f : String → String) (b r : String)
    → before_cut o f ≡ some (b, r)
    → (b' : String) × (o ≡ some (b', r)) × (f b' ≡ b)
before_cut-some none f b r h = cc
before_cut-some (some (b', r')) f b r h = (b', cc, cc)

cut_here :
    (c : Char) (s : String)
    → (is_newline (code c) && starts_newline s) ≡ true
    → cut_block (String.◌∷◌ c s) ≡ some ("", after_first s)
unfolding cut_block
cut_here c s h = rw h refl

pub cut_later :
    (c : Char) (s : String)
    → (is_newline (code c) && starts_newline s) ≡ false
    → cut_block (String.◌∷◌ c s) ≡ before_cut (cut_block s) (λ block. String.◌∷◌ c block)
unfolding cut_block
cut_later c s h = rw h refl

pub cut_none : cut_block "" ≡ none
unfolding cut_block
cut_none = refl

-- What is cut off is shorter than the whole.
cut-shorter : (s b r : String) → cut_block s ≡ some (b, r) → chars r < chars s
cut-shorter String.[] b r h = cc (cut_none, h)
cut-shorter (String.◌∷◌ c s) b r h = elim (Bool-cases (is_newline (code c) && starts_newline s)) [
  | inl y ↦
      let e = sym (cut_here c s y) ∙ h in
      let same : after_first s ≡ r = cc in
      subst (λ x. chars x < chars (String.◌∷◌ c s)) same
        (omega (arith, chars-cons c s, after_first-shorter s))
  | inr n ↦
      let (b', e, _) =
        before_cut-some (cut_block s) (λ block. String.◌∷◌ c block) b r
          (sym (cut_later c s n) ∙ h) in
      omega (arith, chars-cons c s, cut-shorter s b' r e)
]

starts-append :
    (s t : String)
    → starts_newline s ≡ true
    → (starts_newline (String.◌++◌ s t) ≡ true)
      × (after_first (String.◌++◌ s t) ≡ String.◌++◌ (after_first s) t)
starts-append String.[] t h = cc
starts-append (String.◌∷◌ d s) t h =
    (ap starts_newline (cons-append d s t) ∙ h, ap after_first (cons-append d s t))

cut-starts :
    (s t b r : String)
    → cut_block s ≡ some (b, r)
    → starts_newline (String.◌++◌ s t) ≡ starts_newline s
cut-starts String.[] t b r h = cc (cut_none, h)
cut-starts (String.◌∷◌ d s) t b r h = ap starts_newline (cons-append d s t)

-- A blank line that is there stays the first one when more text arrives.
cut-append :
    (s t b r : String)
    → cut_block s ≡ some (b, r)
    → cut_block (String.◌++◌ s t) ≡ some (b, String.◌++◌ r t)
cut-append String.[] t b r h = cc (cut_none, h)
cut-append (String.◌∷◌ c s) t b r h = elim (Bool-cases (is_newline (code c) && starts_newline s)) [
  | inl y ↦
      let (starts, after) = starts-append s t (ground arith) in
      let e = sym (cut_here c s y) ∙ h in
      let block : "" ≡ b = cc in
      let rest : after_first s ≡ r = cc in
      ap cut_block (cons-append c s t)
      ∙ cut_here c (String.◌++◌ s t) (ground arith)
      ∙ (λ i. some (block i, (after ∙ ap (λ x. String.◌++◌ x t) rest) i))
  | inr n ↦
      let (b', e, same) =
        before_cut-some (cut_block s) (λ block. String.◌∷◌ c block) b r
          (sym (cut_later c s n) ∙ h) in
      ap cut_block (cons-append c s t)
      ∙ cut_later c (String.◌++◌ s t)
          (ap (λ x. is_newline (code c) && x) (cut-starts s t b' r e) ∙ n)
      ∙ ap (λ o. before_cut o (λ block. String.◌∷◌ c block)) (cut-append s t b' r e)
      ∙ ap (λ x. some (x, String.◌++◌ r t)) same
]

pub drain-none : (n : ℕ) (s : String) → cut_block s ≡ none → drain n s ≡ ([], s)
unfolding drain
drain-none zero s h = refl
drain-none (suc n) s h = ground (arith, h)

drain-some :
    (n : ℕ) (s b r : String)
    → cut_block s ≡ some (b, r)
    → drain (suc n) s ≡ (b ∷ (drain n r).0, (drain n r).1)
unfolding drain
drain-some n s b r h = ground (arith, h)

cut_empty : (s : String) → chars s ≡ 0 → cut_block s ≡ none
unfolding chars
cut_empty String.[] h = cut_none
cut_empty (String.◌∷◌ c s) h = absurd (omega arith)

-- Fuel beyond the length makes no difference.
drain-fuel : (n m : ℕ) (s : String) → chars s ≤ n → chars s ≤ m → drain n s ≡ drain m s
drain-fuel zero m s h k =
    let e = cut_empty s (omega arith) in drain-none 0 s e ∙ sym (drain-none m s e)
drain-fuel (suc n) zero s h k =
    let e = cut_empty s (omega arith) in drain-none (suc n) s e ∙ sym (drain-none 0 s e)
drain-fuel (suc n) (suc m) s h k = elim (Option-cases (cut_block s)) [
  | inl e ↦ drain-none (suc n) s e ∙ sym (drain-none (suc m) s e)
  | inr ((b, r), e) ↦
      let less = cut-shorter s b r e in
      drain-some n s b r e
      ∙ ap (λ p. (b ∷ p.0, p.1)) (drain-fuel n m r (omega arith) (omega arith))
      ∙ sym (drain-some m s b r e)
]

pub drain_all_lem : (s : String) (n : ℕ) → chars s ≤ n → drain_all s ≡ drain n s
unfolding drain_all
drain_all_lem s n h = drain-fuel (chars s) n s (omega arith) h

-- What is drained first, and what is drained when `t` has arrived behind the rest.
then_drained : List String × String → String → List String × String
then_drained p t = let q = drain_all (String.◌++◌ p.1 t) in (p.0 ++ q.0, q.1)

drain-append :
    (n : ℕ) (s t : String) → chars s ≤ n → drain_all (String.◌++◌ s t) ≡ then_drained (drain n s) t
unfolding then_drained
drain-append zero s t h =
    sym (ap (λ p. then_drained p t) (drain-none 0 s (cut_empty s (omega arith))))
drain-append (suc n) s t h = elim (Option-cases (cut_block s)) [
  | inl e ↦ sym (ap (λ p. then_drained p t) (drain-none (suc n) s e))
  | inr ((b, r), e) ↦
      let whole = String.◌++◌ s t in
      let e' = cut-append s t b r e in
      let less = cut-shorter whole b (String.◌++◌ r t) e' in
      let less_r = cut-shorter s b r e in
      drain_all_lem whole (suc (chars whole)) (omega arith)
      ∙ drain-some (chars whole) whole b (String.◌++◌ r t) e'
      ∙ ap (λ p. (b ∷ p.0, p.1)) (sym (drain_all_lem (String.◌++◌ r t) (chars whole) (omega arith)))
      ∙ ap (λ p. (b ∷ p.0, p.1)) (drain-append n r t (omega arith))
      ∙ sym (ap (λ p. then_drained p t) (drain-some n s b r e))
]

-- Nothing that is a whole block stays in the buffer.
drain_left : (n : ℕ) (s : String) → chars s ≤ n → cut_block (drain n s).1 ≡ none
drain_left zero s h =
    let e = cut_empty s (omega arith) in ap (λ p. cut_block p.1) (drain-none 0 s e) ∙ e
drain_left (suc n) s h = elim (Option-cases (cut_block s)) [
  | inl e ↦ ap (λ p. cut_block p.1) (drain-none (suc n) s e) ∙ e
  | inr ((b, r), e) ↦
      let less = cut-shorter s b r e in
      ap (λ p. cut_block p.1) (drain-some n s b r e) ∙ drain_left n r (omega arith)
]

abbrev pub join_chunks : List String → String
join_chunks [] = ""
join_chunks (chunk ∷ chunks) = String.◌++◌ chunk (join_chunks chunks)

read_chunks_from :
    (chunks : List String) (buffer : String)
    → cut_block buffer ≡ none
    → read_chunks chunks buffer ≡ drain_all (String.◌++◌ buffer (join_chunks chunks))
unfolding read_chunks then_drained
read_chunks_from [] buffer h = sym (
    ap drain_all (TextLemmas.append-nil buffer)
    ∙ drain_all_lem buffer (chars buffer) (omega arith)
    ∙ drain-none (chars buffer) buffer h)
read_chunks_from (chunk ∷ chunks) buffer h =
    let text = String.◌++◌ buffer chunk in
    let same = drain_all_lem text (chars text) (omega arith) in
    ap (λ q. ((drain_all text).0 ++ q.0, q.1))
      (read_chunks_from chunks (drain_all text).1
        (ap (λ p. cut_block p.1) same ∙ drain_left (chars text) text (omega arith)))
    ∙ ap (λ p. then_drained p (join_chunks chunks)) same
    ∙ sym (drain-append (chars text) text (join_chunks chunks) (omega arith))
    ∙ ap drain_all (TextLemmas.append_assoc buffer chunk (join_chunks chunks))

-- However the network cuts the text of a stream into chunks, the reader finds the blocks of the
-- whole text in their order, and is left with what stands behind the last blank line.
pub read_chunks-join :
    (chunks : List String) → read_chunks chunks "" ≡ drain_all (join_chunks chunks)
read_chunks-join chunks =
    read_chunks_from chunks "" cut_none ∙ ap drain_all (TextLemmas.nil-append (join_chunks chunks))
