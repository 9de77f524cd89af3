-- ===== src/Share/Admission/Laws.antt =====
-- What a valid admission satisfies.
use qurl_connector.Base.{
  ◌<◌, ◌≡◌, ◌↔◌, false, none, some, Bytes, bytes_beq_iff, is_empty, arith, Option-cases, inl, inr,
}
use qurl_connector.Base.Int.{pos, ◌<ℤ◌}
use qurl_connector.Net.{split_host_port}
use qurl_connector.Share.Admission.{Admission, validate_admission, validate_admission_receipt}

-- An admission for one resource, with the receipt of exactly its session and run.
pub record IsAdmission (a : Admission) (knock_resource_id resource_id : Bytes) : Type 0 where
  pub knock_resource : a.knock_resource_id ≡ knock_resource_id
  pub resource : a.resource_public_key ≡ resource_id
  pub has_token : is_empty a.token ≡ false
  pub has_run : is_empty a.run_id ≡ false
  pub has_cell : is_empty a.session_receipt.cell_id ≡ false
  pub receipt_session : a.session_receipt.session_id ≡ a.session_id
  pub receipt_run : a.session_receipt.run_id ≡ a.run_id
  pub receipt_attempt : a.session_receipt.run_attempt ≡ a.run_attempt
  pub session : 0 < a.session_id
  pub attempt : 0 < a.run_attempt
  pub issued : pos 0 <ℤ a.session_receipt.session_issued_at_millis
  pub window : pos 0 <ℤ a.open_time
  pub host : (h : Bytes × Bytes) × (split_host_port a.resource_host ≡ some h)

module _ (a : Admission) (k r : Bytes) where
  has_host :
      validate_admission a k r ≡ none
      → (h : Bytes × Bytes) × (split_host_port a.resource_host ≡ some h)
  unfolding validate_admission
  has_host v = elim (Option-cases (split_host_port a.resource_host)) [
    | inl e ↦ absurd (ground arith)
    | inr found ↦ found
  ]

  accepted :
      validate_admission a k r ≡ none
      → (a.knock_resource_id ≡ k)
        × (a.resource_public_key ≡ r)
        × (is_empty a.token ≡ false)
        × (is_empty a.run_id ≡ false)
        × (validate_admission_receipt a ≡ none)
        × (0 < a.session_id)
        × (pos 0 <ℤ a.open_time)
  unfolding validate_admission
  accepted v =
      ground (arith, bytes_beq_iff a.knock_resource_id k, bytes_beq_iff a.resource_public_key r)

receipt_iff :
    (a : Admission)
    → (validate_admission_receipt a ≡ none) ↔ (
        (0 < a.run_attempt)
        × (is_empty a.session_receipt.cell_id ≡ false)
        × (0 < a.session_receipt.session_id)
        × (pos 0 <ℤ a.session_receipt.session_issued_at_millis)
        × (is_empty a.session_receipt.run_id ≡ false)
        × (0 < a.session_receipt.run_attempt)
        × (a.session_receipt.session_id ≡ a.session_id)
        × (a.session_receipt.run_id ≡ a.run_id)
        × (a.session_receipt.run_attempt ≡ a.run_attempt))
unfolding validate_admission_receipt
receipt_iff a = ground (arith, bytes_beq_iff a.session_receipt.run_id a.run_id)

receipt_of : {a : Admission} {k r : Bytes} → IsAdmission a k r → validate_admission_receipt a ≡ none
receipt_of {a} v = (receipt_iff a).1 (ground arith)

-- The admission check accepts exactly the admissions of the requested knock resource and resource
-- that carry a token, a run, a positive window, a host and port, and the receipt of a cell for
-- exactly their session, run and attempt.
pub validate_admission_iff :
    (a : Admission) (knock_resource_id resource_id : Bytes)
    → (validate_admission a knock_resource_id resource_id ≡ none)
      ↔ IsAdmission a knock_resource_id resource_id
unfolding validate_admission
validate_admission_iff a k r = (
  λ v.
      let (knock, resource, token, run, receipt, session, window) = accepted a k r v in
      let (attempt, cell, s, issued, run', s', same_session, same_run, same_attempt) =
        (receipt_iff a).0 receipt in
      record {
        knock_resource = knock;
        resource = resource;
        has_token = token;
        has_run = run;
        has_cell = cell;
        receipt_session = same_session;
        receipt_run = same_run;
        receipt_attempt = same_attempt;
        session = session;
        attempt = attempt;
        issued = issued;
        window = window;
        host = has_host a k r v;
      },
  λ v. ground (
    arith,
    bytes_beq_iff a.knock_resource_id k,
    bytes_beq_iff a.resource_public_key r,
    v.host.1,
    receipt_of v,
  ),
)
