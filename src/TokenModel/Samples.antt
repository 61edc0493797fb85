-- ===== src/TokenModel/Samples.antt =====
-- The store of samples (tokenModel.ts).
use encore_hub.Shared.{
  ℕ, zero, suc, ◌-◌, ◌≤◌, String, Bool-cases, true, false, ◌≡◌, ◌∙◌, subst, sym, refl, inl, inr,
  List, [], ◌∷◌, ◌++◌, any, any-append, drop, take_last, insert, length, length-drop,
  append-length_cons, str_eq, if◌then◌else◌, arith, eq_iff, eq_refl, lookup-insert,
}
use encore_hub.TokenModel.{
  TokenFeatures, TokenModelSample, ModelEntry, ModelStore, entry_of, has_sample, record_sample,
  max_samples_per_model,
}

abbrev pub HasDistinctSamples : List TokenModelSample → Type 0
HasDistinctSamples [] = Unit
HasDistinctSamples (x ∷ xs) = (any (λ s. str_eq s.id x.id) xs ≡ false) × HasDistinctSamples xs

-- The input samples of a model: no id twice, and no more than the cap.
pub record IsSampled (store : ModelStore) : Type 0 where
  pub distinct : (key : String) → HasDistinctSamples (entry_of store key).input
  pub capped : (key : String) → length (entry_of store key).input ≤ max_samples_per_model

distinct-concat :
    (xs : List TokenModelSample) (y : TokenModelSample)
    → HasDistinctSamples xs
    → any (λ s. str_eq s.id y.id) xs ≡ false
    → HasDistinctSamples (xs ++ y ∷ [])
distinct-concat [] y d h = (refl, tt)
distinct-concat (x ∷ xs) y (fresh, d) h = (
  any-append (λ s. str_eq s.id x.id) xs (y ∷ [])
      ∙ ground (arith, eq_iff y.id x.id, eq_iff x.id y.id),
  distinct-concat xs y d (ground arith),
)

distinct-drop :
    (n : ℕ) (xs : List TokenModelSample) → HasDistinctSamples xs → HasDistinctSamples (drop n xs)
distinct-drop zero xs d = d
distinct-drop (suc n) [] d = tt
distinct-drop (suc n) (x ∷ xs) d = distinct-drop n xs d.1

length-take_last : (n : ℕ) (xs : List TokenModelSample) → length (take_last n xs) ≤ n
length-take_last n xs = omega (arith, length-drop (length xs - n) xs)

entry_of-insert :
    (store : ModelStore) (key j : String) (e : ModelEntry)
    → entry_of (insert key e store) j ≡ (if str_eq key j then e else entry_of store j)
entry_of-insert store key j e = ground (arith, lookup-insert key j e store)

appended : ModelEntry → TokenModelSample → ModelEntry
appended e x = record e { input = take_last max_samples_per_model (e.input ++ x ∷ []) }

appended-distinct :
    (e : ModelEntry) (x : TokenModelSample)
    → HasDistinctSamples e.input
    → has_sample x.id e.input ≡ false
    → HasDistinctSamples (appended e x).input
unfolding appended has_sample
appended-distinct e x d h =
    distinct-drop (length (e.input ++ x ∷ []) - max_samples_per_model) (e.input ++ x ∷ [])
      (distinct-concat e.input x d h)

appended-capped :
    (e : ModelEntry) (x : TokenModelSample) → length (appended e x).input ≤ max_samples_per_model
unfolding appended
appended-capped e x = length-take_last max_samples_per_model (e.input ++ x ∷ [])

-- What holds of the new entry and of the old entries holds of the entries after an insertion.
entry_after :
    (P : ModelEntry → Type 0) (store : ModelStore) (key : String) (e : ModelEntry)
    → P e
    → ((j : String) → P (entry_of store j))
    → (j : String) → P (entry_of (insert key e store) j)
entry_after P store key e new old j = elim (Bool-cases (str_eq key j)) [
  | inl y ↦ subst P (sym (entry_of-insert store key j e ∙ ground arith)) new
  | inr n ↦ subst P (sym (entry_of-insert store key j e ∙ ground arith)) (old j)
]

entry_of-insert_self :
    (store : ModelStore) (key : String) (e : ModelEntry) → entry_of (insert key e store) key ≡ e
entry_of-insert_self store key e = ground (arith, lookup-insert key key e store, eq_refl key)

record_sample-IsSampled :
    (store : ModelStore) (key id : String) (features : TokenFeatures) (actual : ℕ)
    → IsSampled store
    → IsSampled (record_sample store key id features actual)
unfolding record_sample appended
record_sample-IsSampled store key id features actual h =
    let x : TokenModelSample = record { id = id; features = features; actual = actual } in
    let e = entry_of store key in
    elim (Bool-cases (has_sample id e.input)) [
      | inl y ↦ rw y h
      | inr n ↦ rw n (record {
        distinct =
            entry_after (λ v. HasDistinctSamples v.input) store key (appended e x)
              (appended-distinct e x (h.distinct key) n) h.distinct;
        capped =
            entry_after (λ v. length v.input ≤ max_samples_per_model) store key (appended e x)
              (appended-capped e x) h.capped;
      })
    ]

any-drop_concat :
    (n : ℕ) (xs : List TokenModelSample) (x : TokenModelSample)
    → n ≤ length xs
    → any (λ s. str_eq s.id x.id) (drop n (xs ++ x ∷ [])) ≡ true
any-drop_concat zero xs x h =
    any-append (λ s. str_eq s.id x.id) xs (x ∷ []) ∙ ground (arith, eq_refl x.id)
any-drop_concat (suc n) [] x h = absurd (omega arith)
any-drop_concat (suc n) (y ∷ xs) x h = any-drop_concat n xs x (omega arith)

recorded_known :
    (store : ModelStore) (key id : String) (features : TokenFeatures) (actual : ℕ)
    → has_sample id (entry_of store key).input ≡ true
    → record_sample store key id features actual ≡ store
unfolding record_sample
recorded_known store key id features actual h = rw h

has-record_sample :
    (store : ModelStore) (key id : String) (features : TokenFeatures) (actual : ℕ)
    → has_sample id (entry_of (record_sample store key id features actual) key).input ≡ true
unfolding record_sample appended has_sample
has-record_sample store key id features actual =
    let x : TokenModelSample = record { id = id; features = features; actual = actual } in
    let e = entry_of store key in
    elim (Bool-cases (any (λ s. str_eq s.id id) e.input)) [
      | inl y ↦ rw y y
      | inr n ↦ rw n (
          subst (λ v. any (λ s. str_eq s.id id) v.input ≡ true)
            (sym (entry_of-insert_self store key (appended e x)))
            (any-drop_concat (length (e.input ++ x ∷ []) - max_samples_per_model) e.input x
              (omega (arith, append-length_cons e.input x))))
    ]

-- Where each model's input samples are distinct and at most 256, this holds after any sample is
-- recorded for any model; and recording the sample of the same id again, with whatever features,
-- changes nothing.
pub record_sample_lem :
    (store : ModelStore) (key id : String) (f g : TokenFeatures) (a b : ℕ)
    → IsSampled store
    → IsSampled (record_sample store key id f a)
      × (record_sample (record_sample store key id f a) key id g b ≡ record_sample store key id f a)
record_sample_lem store key id f g a b h = (
  record_sample-IsSampled store key id f a h,
  recorded_known (record_sample store key id f a) key id g b (has-record_sample store key id f a),
)
