-- ===== src/TokenModel.antt =====
-- frontend/src/services/tokenModel.ts: text features, the split of a reported output total, and the
-- store of samples. A coefficient is a fraction with the denominator `unit`, and products and
-- roundings are exact where the source computes in doubles. The least-squares fit is a parameter of
-- what uses it.
pub mod Samples
pub mod Split
mod Tests
use Prim.Native.Char.{code}
use encore_hub.Shared.{
  ℕ, zero, suc, ◌+◌, ◌-◌, ◌*◌, ◌/◌, min, max, String, Bool, true, false, Option, none, some, List,
  [], ◌∷◌, ◌++◌, any, Assoc, lookup, insert, length, take_last, or_else, leb, ltb, is_empty,
  is_some, str_eq, if◌then◌else◌, ◌==◌,
}

pub record TokenTextStats : Type 0 where
  pub ascii_bytes : ℕ
  pub non_ascii_chars : ℕ

pub record TokenFeatures : Type 0 where
  pub ascii_bytes : ℕ
  pub non_ascii_chars : ℕ
  pub message_count : ℕ

-- Each coefficient is its field over `unit`.
pub record TokenCoefficients : Type 0 where
  pub unit : ℕ
  pub intercept : ℕ
  pub ascii_per_byte : ℕ
  pub non_ascii_per_char : ℕ
  pub per_message : ℕ

pub record OutputCoefficients : Type 0 where
  pub unit : ℕ
  pub ascii_per_byte : ℕ
  pub non_ascii_per_char : ℕ

pub record TokenModelSample : Type 0 where
  pub id : String
  pub features : TokenFeatures
  pub actual : ℕ

pub record TokenOutputSample : Type 0 where
  pub id : String
  pub features : TokenTextStats
  pub actual : ℕ

abbrev pub default_coefficients : TokenCoefficients
default_coefficients = record {
  unit = 100;
  intercept = 0;
  ascii_per_byte = 25;
  non_ascii_per_char = 100;
  per_message = 400;
}

abbrev pub default_output_coefficients : OutputCoefficients
default_output_coefficients = record { unit = 100; ascii_per_byte = 25; non_ascii_per_char = 100 }

abbrev pub min_samples_to_trust : ℕ
min_samples_to_trust = 8

abbrev pub max_samples_per_model : ℕ
max_samples_per_model = 256

abbrev pub no_text : TokenTextStats
no_text = record { ascii_bytes = 0; non_ascii_chars = 0 }

unfoldable pub add_text_stats : TokenTextStats → TokenTextStats → TokenTextStats
add_text_stats a b = record {
  ascii_bytes = a.ascii_bytes + b.ascii_bytes;
  non_ascii_chars = a.non_ascii_chars + b.non_ascii_chars;
}

-- One code point.
unfoldable pub char_stats : ℕ → TokenTextStats
char_stats c =
    if leb c 0x7f
    then record { ascii_bytes = 1; non_ascii_chars = 0 }
    else record { ascii_bytes = 0; non_ascii_chars = 1 }

unfoldable pub count_text_stats : String → TokenTextStats
unfolding char_stats add_text_stats
count_text_stats String.[] = no_text
count_text_stats (String.◌∷◌ c s) = add_text_stats (char_stats (code c)) (count_text_stats s)

-- `Math.max(0, Math.round(raw))` of the fraction `raw / unit`
unfoldable pub round_over : ℕ → ℕ → ℕ
round_over raw unit = (2 * raw + unit) / (2 * unit)

unfoldable pub predict_tokens : TokenCoefficients → TokenFeatures → ℕ
unfolding round_over
predict_tokens c f =
    round_over
      (c.intercept
        + c.ascii_per_byte * f.ascii_bytes
        + c.non_ascii_per_char * f.non_ascii_chars
        + c.per_message * f.message_count)
      c.unit

unfoldable pub text_weight : OutputCoefficients → TokenTextStats → ℕ
text_weight c stats =
    c.ascii_per_byte * stats.ascii_bytes + c.non_ascii_per_char * stats.non_ascii_chars

unfoldable pub predict_output_tokens : OutputCoefficients → String → ℕ
unfolding round_over text_weight
predict_output_tokens c text = round_over (text_weight c (count_text_stats text)) c.unit

pub record OutputSplit : Type 0 where
  pub visible : ℕ
  pub reasoning : ℕ

-- `total - total * reasoningWeight / combined` is the fraction `total * contentWeight / combined`.
unfoldable pub split_by_weight : ℕ → ℕ → ℕ → OutputSplit
split_by_weight total content_weight reasoning_weight =
    let combined = content_weight + reasoning_weight in
    let visible = min total (round_over (total * content_weight) combined) in
    if combined == 0
    then record { visible = total; reasoning = 0 }
    else record { visible = visible; reasoning = total - visible }

unfoldable pub split_output_tokens : OutputCoefficients → String → String → ℕ → OutputSplit
unfolding split_by_weight
split_output_tokens c content reasoning total =
    if total == 0
    then record { visible = 0; reasoning = 0 }
    else if is_empty reasoning
    then record { visible = total; reasoning = 0 }
    else split_by_weight total (text_weight c (count_text_stats content))
        (text_weight c (count_text_stats reasoning))

pub record ModelEntry : Type 0 where
  pub input : List TokenModelSample
  pub output : List TokenOutputSample

abbrev pub ModelStore : Type 0
ModelStore = Assoc ModelEntry

abbrev pub empty_entry : ModelEntry
empty_entry = record { input = []; output = [] }

abbrev pub entry_of : ModelStore → String → ModelEntry
entry_of store key = or_else (lookup key store) empty_entry

unfoldable pub has_sample : String → List TokenModelSample → Bool
has_sample id samples = any (λ s. str_eq s.id id) samples

unfoldable pub has_output_sample : String → List TokenOutputSample → Bool
has_output_sample id samples = any (λ s. str_eq s.id id) samples

-- `recordSample`: what it leaves in the store.
unfoldable pub record_sample : ModelStore → String → String → TokenFeatures → ℕ → ModelStore
unfolding has_sample
record_sample store key id features actual =
    let entry = entry_of store key in
    if has_sample id entry.input
    then store
    else insert key
        (record entry {
          input =
              take_last max_samples_per_model
                (entry.input ++ record { id = id; features = features; actual = actual } ∷ []);
        })
        store

unfoldable pub record_output_sample : ModelStore → String → String → TokenTextStats → ℕ → ModelStore
unfolding has_output_sample
record_output_sample store key id features actual =
    let entry = entry_of store key in
    if has_output_sample id entry.output
    then store
    else insert key
        (record entry {
          output =
              take_last max_samples_per_model
                (entry.output ++ record { id = id; features = features; actual = actual } ∷ []);
        })
        store

pub record TokenModelState : Type 0 where
  pub coeffs : TokenCoefficients
  pub sample_count : ℕ
  pub trusted : Bool
  pub output_coeffs : OutputCoefficients
  pub output_sample_count : ℕ
  pub output_trusted : Bool

-- `fit` and `fit_output` solve the normal equations and clamp the solution; none where they are
-- singular. Below the threshold they are not asked.
module _ (fit : List TokenModelSample → Option TokenCoefficients)
    (fit_output : List TokenOutputSample → Option OutputCoefficients) where
  unfoldable pub fit_coefficients : List TokenModelSample → Option TokenCoefficients
  fit_coefficients samples = if ltb (length samples) min_samples_to_trust then none else fit samples

  unfoldable pub fit_output_coefficients : List TokenOutputSample → Option OutputCoefficients
  fit_output_coefficients samples =
      if ltb (length samples) min_samples_to_trust then none else fit_output samples

  unfoldable pub load_model : ModelStore → String → TokenModelState
  unfolding fit_coefficients fit_output_coefficients
  load_model store key =
      let entry = entry_of store key in
      let fitted = fit_coefficients entry.input in
      let output_fitted = fit_output_coefficients entry.output in
      record {
        coeffs = or_else fitted default_coefficients;
        sample_count = length entry.input;
        trusted = is_some fitted;
        output_coeffs = or_else output_fitted default_output_coefficients;
        output_sample_count = length entry.output;
        output_trusted = is_some output_fitted;
      }
