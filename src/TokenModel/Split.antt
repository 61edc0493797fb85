-- ===== src/TokenModel/Split.antt =====
-- Splitting a reported output total between the visible text and the reasoning (tokenModel.ts).
use encore_hub.Shared.{ℕ, ◌+◌, String, ◌≡◌, arith}
use encore_hub.TokenModel.{OutputCoefficients, split_output_tokens}

-- The two shares are the whole total, whatever the texts and the coefficients.
pub split_output_tokens-total :
    (c : OutputCoefficients) (content reasoning : String) (total : ℕ)
    → let split = split_output_tokens c content reasoning total in
      split.visible + split.reasoning ≡ total
unfolding split_output_tokens
split_output_tokens-total c content reasoning total = ground arith
