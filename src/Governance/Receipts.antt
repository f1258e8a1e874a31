-- ===== src/Governance/Receipts.antt =====
-- The receipts of finished invocations (agent_company_os/domain/tools.py, `ToolReceipt`).
use nebula_os.Prelude.{
  ◌≤◌, String, false, not, ◌≡◌, refl, sym, ap, subst, ◌∙◌, ◌↔◌, Option, none, some, arith, eq_iff,
}
use nebula_os.Domain.Errors.{ok}
use nebula_os.Domain.Validation.{DateTime}
use nebula_os.Governance.Invocation.{
  ToolError, ToolInvocation, is_running, is_some, finish, finished_status, finished_ended,
}
use nebula_os.Governance.Finishing.{finish-finished}
use nebula_os.Governance.Receipt.{ToolOutput, ToolReceipt, has_succeeded, outcome, check_receipt}

-- The outcome by the error of the call.
abbrev pub outcome_of : Option ToolError → String
outcome_of none = "observed"
outcome_of (some e) = elim e [ ToolError.rejected ↦ "observed_failure" | _ ↦ "unknown" ]

succeeded_without :
    (error : Option ToolError) → has_succeeded (finished_status error) ≡ not (is_some error)
succeeded_without none = refl
succeeded_without (some e) = ground arith

-- With an output exactly if there was no error, the error decides the outcome.
outcome-same :
    (output : Option ToolOutput) (error : Option ToolError)
    → is_some output ≡ not (is_some error)
    → outcome output error ≡ outcome_of error
outcome-same none none h = ground arith
outcome-same none (some e) h = ground arith
outcome-same (some o) none h = refl
outcome-same (some o) (some e) h = ground arith

-- What the check of a receipt asks.
Fits : ToolReceipt → Type 0
Fits r =
    (is_running r.invocation.status ≡ false)
    × (r.schema_version ≡ 1)
    × (has_succeeded r.invocation.status ≡ is_some r.output)
    × (1 ≤ r.input_bytes)
    × (r.input_bytes ≤ r.invocation.tool_version.max_input_bytes)
    × (r.output_bytes ≤ r.invocation.tool_version.max_output_bytes)
    × (r.remote_outcome ≡ outcome r.output r.invocation.error_code)

check_receipt-Fits : (r : ToolReceipt) → check_receipt r ≡ ok r → Fits r
unfolding check_receipt Fits
check_receipt-Fits r h = (
  ground arith,
  ground arith,
  ground arith,
  ground arith,
  ground arith,
  ground arith,
  ground (arith, eq_iff r.remote_outcome (outcome r.output r.invocation.error_code)),
)

Fits-check_receipt : (r : ToolReceipt) → Fits r → check_receipt r ≡ ok r
unfolding check_receipt Fits
Fits-check_receipt r (ended, schema, success, some_input, input, output, named) =
    ground (arith, eq_iff r.remote_outcome (outcome r.output r.invocation.error_code))

module _ (i : ToolInvocation) (at : DateTime) (error : Option ToolError) (r : ToolReceipt)
    (done : finish i at error ≡ ok r.invocation) where
  -- A receipt of what `finish` returned is accepted exactly if it has schema version 1, an output
  -- exactly if there was no error, an input of 1 byte or more within the bound of the tool, an output
  -- within its bound, and the outcome `observed` without an error, `observed_failure` for a rejection
  -- and `unknown` for every other error.
  pub check_receipt-finish : (check_receipt r ≡ ok r) ↔ (
      (r.schema_version ≡ 1)
      × (is_some r.output ≡ not (is_some error))
      × (1 ≤ r.input_bytes)
      × (r.input_bytes ≤ i.tool_version.max_input_bytes)
      × (r.output_bytes ≤ i.tool_version.max_output_bytes)
      × (r.remote_outcome ≡ outcome_of error))
  unfolding Fits
  check_receipt-finish =
      let same = finish-finished i r.invocation at error done in
      let status : r.invocation.status ≡ finished_status error = sym (ap (λ j. j.status) same) in
      let code : r.invocation.error_code ≡ error = sym (ap (λ j. j.error_code) same) in
      let input = ap (λ j. j.tool_version.max_input_bytes) same in
      let output = ap (λ j. j.tool_version.max_output_bytes) same in
      let success = ap has_succeeded status ∙ succeeded_without error in
      (
        λ h.
            let fits = check_receipt-Fits r h in
            let shown = sym fits.2 ∙ success in
            (
              fits.1,
              shown,
              fits.3,
              subst (λ n. r.input_bytes ≤ n) (sym input) fits.4,
              subst (λ n. r.output_bytes ≤ n) (sym output) fits.5,
              fits.6 ∙ ap (outcome r.output) code ∙ outcome-same r.output error shown,
            ),
        λ h. Fits-check_receipt r (
          ap is_running status ∙ finished_ended error,
          h.0,
          success ∙ sym h.1,
          h.2,
          subst (λ n. r.input_bytes ≤ n) input h.3,
          subst (λ n. r.output_bytes ≤ n) output h.4,
          h.5 ∙ sym (ap (outcome r.output) code ∙ outcome-same r.output error h.1),
        ),
      )
