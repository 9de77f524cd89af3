-- ===== src/Share/Admission.antt =====
-- pkg/share/session.go: an NHP admission and its validation; frp.go: the Login that carries it.
pub mod Laws
use qurl_connector.Base.{
  ℕ, Bool, true, false, not, ◌&&◌, ◌||◌, Option, none, some, [], ◌∷◌, Bytes, bytes_eq, ◌==◌, ◌!=◌,
  nat_eq, nat_beq, is_empty, codes, if◌then◌else◌,
}
use qurl_connector.Base.Int.{ℤ, pos, leb_ℤ}
use qurl_connector.Base.Maps.{insert}
use qurl_connector.Net.{parse_ip, split_host_port}
use qurl_connector.Strings.{trim_prefix, trim_suffix}
use qurl_connector.Share.Route.Transport.{
  ClientCommonConfig, tls_enabled, parse_admitted_resource_host,
}

-- The fields of `qurl.NativeSessionReceipt`.
pub record SessionReceipt : Type 0 where
  pub cell_id : Bytes
  pub session_id : ℕ  -- uint64
  pub session_issued_at_millis : ℤ  -- int64
  pub run_id : Bytes
  pub run_attempt : ℕ  -- uint64

pub record Admission : Type 0 where
  pub knock_resource_id : Bytes
  pub resource_public_key : Bytes
  pub run_id : Bytes
  pub run_attempt : ℕ  -- uint64
  pub token : Bytes
  pub resource_host : Bytes
  pub session_id : ℕ  -- uint64
  pub session_receipt : SessionReceipt
  pub open_time : ℤ  -- int64 nanoseconds

pub data AdmissionError : Type 0 where
  wrong_knock_resource wrong_resource missing_run_or_token invalid_receipt zero_session
        open_time_not_positive host_not_canonical :
      AdmissionError

-- `validateAdmissionReceipt`
unfoldable pub validate_admission_receipt : Admission → Option AdmissionError
validate_admission_receipt a =
    let r = a.session_receipt in
    if nat_beq a.run_attempt 0
      || (is_empty r.cell_id
          || (nat_beq r.session_id 0
              || (leb_ℤ r.session_issued_at_millis (pos 0)
                  || (is_empty r.run_id
                      || (nat_beq r.run_attempt 0
                          || ((r.session_id != a.session_id)
                              || ((r.run_id != a.run_id) || (r.run_attempt != a.run_attempt))))))))
    then some invalid_receipt
    else none

abbrev is_none {ℓ} : {A : Type ℓ} → Option A → Bool
is_none none = true
is_none (some x) = false

-- `validateAdmission`
unfoldable pub validate_admission : Admission → Bytes → Bytes → Option AdmissionError
validate_admission a knock_resource_id resource_id =
    if a.knock_resource_id != knock_resource_id
    then some wrong_knock_resource
    else if a.resource_public_key != resource_id
    then some wrong_resource
    else if is_empty a.run_id || is_empty a.token
    then some missing_run_or_token
    else elim (validate_admission_receipt a) [
      | some e ↦ some e
      | none ↦
          if nat_beq a.session_id 0
          then some zero_session
          else if leb_ℤ a.open_time (pos 0)
          then some open_time_not_positive
          else if is_none (split_host_port a.resource_host)
          then some host_not_canonical
          else none
    ]

-- `ipLiteralHost`
unfoldable pub ip_literal_host : Bytes → Bool
ip_literal_host host =
    not (is_none (parse_ip (trim_prefix (codes "[") (trim_suffix (codes "]") host))))

-- `buildAdmittedCommon`: `none` is an error. `client_version` is the build's, empty when unknown.
unfoldable pub build_admitted_common :
    ClientCommonConfig → Admission → Bytes → Option ClientCommonConfig
build_admitted_common base admission client_version =
    elim (parse_admitted_resource_host admission.resource_host) [
      | none ↦ none
      | some (host, port) ↦
          let with_token = insert (codes "qurl_knock_token") admission.token base.metadatas in
          let metadatas =
            if is_empty client_version
            then with_token
            else insert (codes "client_version") client_version with_token in
          if tls_enabled base && (is_empty base.tls_server_name && ip_literal_host host)
          then none
          else some (record base {
            server_addr = host;
            server_port = port;
            metadatas = metadatas;
            login_fail_exit = some true;
          })
    ]
