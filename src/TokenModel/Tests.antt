-- ===== src/TokenModel/Tests.antt =====
-- Samples and splits of tokenModel.ts.
use encore_hub.Shared.{◌+◌, arith, ◌≡◌, [], lookup}
use encore_hub.TokenModel.{
  TokenFeatures, ModelStore, default_output_coefficients, split_output_tokens, record_sample,
}
use encore_hub.TokenModel.Samples.{IsSampled, record_sample_lem}
use encore_hub.TokenModel.Split.{split_output_tokens-total}

abbrev features : TokenFeatures
features = record { ascii_bytes = 400; non_ascii_chars = 3; message_count = 2 }

abbrev no_samples : ModelStore
no_samples = []

no_samples-IsSampled : IsSampled no_samples
unfolding lookup
no_samples-IsSampled = record { distinct = λ key. tt; capped = λ key. omega arith }

record_sample_lem_example :
    IsSampled (record_sample no_samples "p|m" "m1" features 120)
    × (record_sample (record_sample no_samples "p|m" "m1" features 120) "p|m" "m1" features 90
        ≡ record_sample no_samples "p|m" "m1" features 120)
record_sample_lem_example =
    record_sample_lem no_samples "p|m" "m1" features features 120 90 no_samples-IsSampled

split_output_tokens-total_example :
    let split = split_output_tokens default_output_coefficients "four" "reason" 101 in
    split.visible + split.reasoning ≡ 101
split_output_tokens-total_example =
    split_output_tokens-total default_output_coefficients "four" "reason" 101
