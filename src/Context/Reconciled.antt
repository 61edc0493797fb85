-- ===== src/Context/Reconciled.antt =====
-- The rows of the context meter add up (contextManagementStore.ts).
use native.Mathlib.Nat.{div-mul-le_self, le-div_iff_mul-le, div-le_of_le-mul, mul-le-mul_right}
use encore_hub.Shared.{
  ℕ, ◌+◌, ◌*◌, ◌≤◌, ◌<◌, String, Bool, true, false, ◌≡◌, refl, Option, none, some, List,
  if◌then◌else◌, arith,
}
use encore_hub.Models.{Message, CharacterSnapshot}
use encore_hub.TokenModel.{TokenCoefficients, OutputCoefficients, TokenModelState}
use encore_hub.Context.{
  ContextCategories, category_total, categories_from_features, scaled,
  reconcile_snapshot_categories, CompactionState,
}
use encore_hub.Context.Estimate.{
  ContextBreakdown, Measured, measure, compacted_after, measured_breakdown, estimated_breakdown,
  breakdown_of, estimate_context_usage,
}

-- The rows of a breakdown add up to its occupancy, and the request's input is a part of it.
unfoldable pub RowsAdd : ContextBreakdown → Type 0
RowsAdd b = (category_total b.categories ≡ b.context_tokens) × (b.used_tokens ≤ b.context_tokens)

-- The floors of two parts are no more than the floor of their sum.
scaled_add :
    (a b snapshot total : ℕ)
    → 0 < total
    → scaled a snapshot total + scaled b snapshot total ≤ scaled (a + b) snapshot total
unfolding scaled
scaled_add a b snapshot total pos =
    (le-div_iff_mul-le pos).1
      (grind (arith, div-mul-le_self (a * snapshot) total, div-mul-le_self (b * snapshot) total))

scaled_le : (n snapshot total : ℕ) → n ≤ total → scaled n snapshot total ≤ snapshot
unfolding scaled
scaled_le n snapshot total h = div-le_of_le-mul total (mul-le-mul_right snapshot h)

-- The floors of the four estimated rows leave room in the provider's count.
rows_bound :
    (a b c d snapshot total : ℕ)
    → 0 < total
    → a + b + c + d ≤ total
    → scaled a snapshot total
        + scaled b snapshot total
        + scaled c snapshot total
        + scaled d snapshot total
      ≤ snapshot
rows_bound a b c d snapshot total pos h = omega (
  arith,
  scaled_add a b snapshot total pos,
  scaled_add (a + b) c snapshot total pos,
  scaled_add (a + b + c) d snapshot total pos,
  scaled_le (a + b + c + d) snapshot total h,
)

-- After the reconciliation the rows add up to the provider's count.
pub reconcile_total :
    (e : ContextCategories) (snapshot : ℕ)
    → e.other ≡ 0
    → category_total (reconcile_snapshot_categories e snapshot) ≡ snapshot
unfolding reconcile_snapshot_categories
reconcile_total e snapshot h =
    let bound : 0 < category_total e → _ = λ pos.
      rows_bound e.system e.tools e.skills e.messages snapshot (category_total e) pos
        (omega arith) in
    ground (arith, bound)

measured_rows :
    (limit : Option ℕ) (reserved input output : ℕ) (m : Measured)
    → category_total m.covered ≡ input
    → RowsAdd (measured_breakdown limit reserved input output m)
unfolding RowsAdd measured_breakdown breakdown_of category_total
measured_rows limit reserved input output m h = (omega (arith, h), omega arith)

estimated_rows :
    (limit : Option ℕ) (reserved : ℕ) (categories : ContextCategories)
    → RowsAdd (estimated_breakdown limit reserved categories)
unfolding RowsAdd estimated_breakdown breakdown_of
estimated_rows limit reserved categories = (refl, omega arith)

-- The covered rows of a measurement add up to the provider's input count.
measure-covered :
    (coeffs : TokenCoefficients) (output_coeffs : OutputCoefficients) (messages : List Message)
    (index : ℕ) (m : Message) (input output : ℕ) (system_text : String)
    → category_total
        (measure coeffs output_coeffs messages index m input output system_text).covered
      ≡ input
unfolding measure categories_from_features
measure-covered coeffs output_coeffs messages index m input output system_text =
    reconcile_total _ input refl

-- The rows add up for either outcome of a test, and with or without a measured message.
either_rows :
    (b : Bool) (x y : ContextBreakdown) → RowsAdd x → RowsAdd y → RowsAdd (if b then x else y)
either_rows true x y hx hy = hx
either_rows false x y hx hy = hy

optional_rows :
    (o : Option Message) (x : ContextBreakdown) (f : Message → ContextBreakdown)
    → RowsAdd x
    → ((m : Message) → RowsAdd (f m))
    → RowsAdd (elim o [ none ↦ x | some m ↦ f m ])
optional_rows none x f hx hf = hx
optional_rows (some m) x f hx hf = hf m

-- For every list of messages, with or without a limit, a compaction, a character and fitted
-- coefficients, the rows of the context meter add up to its occupancy, and the tokens billed as
-- request input are no more than the occupancy.
pub estimate_context_usage-RowsAdd :
    (model : TokenModelState) (messages : List Message) (limit : Option ℕ)
    (compaction : Option CompactionState) (reserved : ℕ) (character : Option CharacterSnapshot)
    (time : String)
    → RowsAdd (estimate_context_usage model messages limit compaction reserved character time)
unfolding estimate_context_usage
estimate_context_usage-RowsAdd model messages limit compaction reserved character time =
    optional_rows _ _ _ (estimated_rows limit reserved _) λ m.
      either_rows (compacted_after compaction m) _ _ (estimated_rows limit reserved _)
        (measured_rows limit reserved _ _ _ (measure-covered _ _ messages _ m _ _ _))
