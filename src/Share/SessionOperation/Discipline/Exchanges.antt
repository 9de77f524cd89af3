-- ===== src/Share/SessionOperation/Discipline/Exchanges.antt =====
-- The exchanges of an attempt keep to the discipline (session_operation.go).
use qurl_connector.Base.{
  ◌<◌, ◌≡◌, refl, ◌∙◌, true, Option, none, some, Bytes, arith, if_both, subst, bytes_eq,
}
use qurl_connector.Agentstate.SessionOperation.{
  OperationApi, Endpoint, SessionOperationRecord, Status, valid_session_operation_record,
  valid_fields, valid_recovery_endpoint,
}
use qurl_connector.Share.SessionOperation.{
  Error, Exchange, ExchangeError, no_reply_error, endpoint_answered, is_no_reply_error,
  is_countable_silence, refence_endpoint, Assignment,
}
use qurl_connector.Share.SessionOperation.Program.{exchange, Program, ask, Next}
use qurl_connector.Share.SessionOperation.Protocol.{Ensures, Ends}
use qurl_connector.Share.SessionOperation.Accepted.{IsDecoded, IsOpen, moved-IsWrite}
use qurl_connector.Share.SessionOperation.Discipline.{
  IsTerminal, Seen, ErrorFits, completes, after, MayWrite, after_write, discipline,
}
use qurl_connector.Share.SessionOperation.Recover.Refence.{
  Outcome, refenced, pinned_replied, pinned_failed, refence, pinned_outcome, move_written, admits,
}
use qurl_connector.Share.SessionOperation.Discipline.Stages.{reconcile-Ends, Attempted}

pub IsOpen-not-IsTerminal : (s : Status) → IsOpen s → ¬ IsTerminal s
IsOpen-not-IsTerminal s h k = ground arith

module _ {Op : Type 0} ⦃api : OperationApi Op⦄ where
  -- What holds of the outcome of an attempt's exchanges.
  pub record Judged (o : Outcome Op) (s : Seen Op) : Type 0 where
    pub decoded : IsDecoded o.held
    pub open_status : IsOpen o.held.status
    pub paid : o.held.post_expiry_no_reply_attempts < o.held.recovery_attempt
    pub silent : o.countable ≡ true → s.silent ≡ true
    pub complete : completes o.reply ≡ true → s.complete ≡ true
    pub fits : ErrorFits o.held.operation o.reply.error

  -- The state after the exchange that replied `x`.
  abbrev pub heard : Seen Op → SessionOperationRecord Op → Endpoint → Exchange → Seen Op
  heard s r e x = after s (exchange r.operation e) x

  moved-MayWrite :
      (s : Seen Op) (r : SessionOperationRecord Op) (e : Endpoint)
      → IsDecoded r
      → IsOpen r.status
      → valid_recovery_endpoint e ≡ true
      → MayWrite s r (record r { recovery_endpoint = e })
  moved-MayWrite s r e h o v = record {
    accepted = (moved-IsWrite r e h o v).accepted;
    ended = λ t. absurd (IsOpen-not-IsTerminal r.status o t);
    counted = λ more. absurd (omega arith);
  }

  pinned-Judged :
      (r : SessionOperationRecord Op) (e : Endpoint) (x : Exchange) (s t : Seen Op)
      → Attempted r s
      → ErrorFits r.operation x.error
      → t ≡ heard s r e x
      → Judged (pinned_outcome r x) t
  pinned-Judged r e x s t a fits same = record {
    decoded = a.decoded;
    open_status = a.open_status;
    paid = a.paid;
    silent = λ c. rw same c;
    complete = λ c. rw same c;
    fits = fits;
  }

  refence_endpoint-valid :
      (current : Assignment) (r : SessionOperationRecord Op) (e : Endpoint)
      → refence_endpoint current r ≡ some e
      → valid_recovery_endpoint e ≡ true
  unfolding refence_endpoint
  refence_endpoint-valid current r e h =
      let same : current.endpoint ≡ e = ground arith in
      subst (λ (f : Endpoint). valid_recovery_endpoint f ≡ true) same (ground arith)

  -- The current endpoint answered, and the record moves to it.
  move_written-Ends :
      (rid : Bytes) (r : SessionOperationRecord Op) (e : Endpoint) (y : Exchange) (s t : Seen Op)
      (w : Option Error)
      → Attempted r s
      → valid_recovery_endpoint e ≡ true
      → ErrorFits r.operation y.error
      → t.silent ≡ is_countable_silence y.error
      → t.complete ≡ completes y
      → Ensures discipline
          (move_written rid r (record r { recovery_endpoint = e }) y w)
          (after_write t r (record r { recovery_endpoint = e }) w)
          (Ends discipline Judged)
  unfolding move_written
  move_written-Ends rid r e y s t none a v fits quiet done = record {
    decoded = (moved-IsWrite r e a.decoded a.open_status v).decoded;
    open_status = a.open_status;
    paid = a.paid;
    silent = λ c. quiet ∙ c;
    complete = λ c. done ∙ c;
    fits = fits;
  }
  move_written-Ends rid r e y s t (some w) a v fits quiet done =
      if_both
        (λ (m : Program Op (Next (Outcome Op))). Ensures discipline m t (Ends discipline Judged))
        (admits y.error) tt (reconcile-Ends Judged rid r w t)

  refenced-Ends :
      (rid : Bytes) (r : SessionOperationRecord Op) (current : Endpoint) (x : Exchange)
      (e : ExchangeError) (y : Exchange) (s t : Seen Op)
      → Attempted r s
      → valid_recovery_endpoint current ≡ true
      → x.error ≡ some e
      → ErrorFits r.operation x.error
      → ErrorFits r.operation y.error
      → t.silent ≡ is_countable_silence y.error
      → t.complete ≡ completes y
      → Ensures discipline (refenced rid r current x e y) t (Ends discipline Judged)
  unfolding refenced
  refenced-Ends rid r current x e y s t a v xe fx fy quiet done =
      let Ok : Program Op (Next (Outcome Op)) → Type 0 =
        λ m. Ensures discipline m t (Ends discipline Judged) in
      if_both Ok (endpoint_answered y.result y.error)
        (
          tt,
          λ gone ok.
              if_both Ok gone (tt, λ _ _. tt)
                (
                  moved-MayWrite t r current a.decoded a.open_status v,
                  λ w ok. move_written-Ends rid r current y s t w a v fy quiet done,
                ),
        )
        (if_both Ok (is_no_reply_error y.error)
          (
            tt,
            λ gone ok.
                if_both Ok gone (tt, λ _ _. tt)
                  (record {
                    decoded = a.decoded;
                    open_status = a.open_status;
                    paid = a.paid;
                    silent = λ c. quiet ∙ ground arith;
                    complete = λ c. absurd (ground arith);
                    fits = fx;
                  }),
          )
          (tt, λ _ _. tt))

  refence-Ends :
      (rid : Bytes) (r : SessionOperationRecord Op) (p : Endpoint) (x : Exchange)
      (e : ExchangeError) (o : Option Endpoint) (current : Assignment) (s t : Seen Op)
      → Attempted r s
      → refence_endpoint current r ≡ o
      → x.error ≡ some e
      → ErrorFits r.operation x.error
      → t ≡ heard s r p x
      → Ensures discipline (refence rid r x e o) t (Ends discipline Judged)
  unfolding refence
  refence-Ends rid r p x e none current s t a c xe fits same = pinned-Judged r p x s t a fits same
  refence-Ends rid r p x e (some endpoint) current s t a c xe fits same =
      let v = refence_endpoint-valid current r endpoint c in
      (
        record {
          held = r;
          written = rw same a.written;
          operation = refl;
          open_status = a.open_status;
          left = rw same (omega (arith, a.sends));
          endpoint_valid = v;
        },
        λ y fy.
            refenced-Ends rid r endpoint x e y s (heard t r endpoint y) a v xe fits fy refl refl,
      )

  pinned_failed-Ends :
      (rid : Bytes) (r : SessionOperationRecord Op) (p : Endpoint) (x : Exchange)
      (o : Option ExchangeError) (s t : Seen Op)
      → Attempted r s
      → x.error ≡ o
      → ErrorFits r.operation x.error
      → t ≡ heard s r p x
      → Ensures discipline (pinned_failed rid r x o) t (Ends discipline Judged)
  unfolding pinned_failed
  pinned_failed-Ends rid r p x none s t a xe fits same = pinned-Judged r p x s t a fits same
  pinned_failed-Ends rid r p x (some e) s t a xe fits same =
      let Ok : Program Op (Next (Outcome Op)) → Type 0 =
        λ m. Ensures discipline m t (Ends discipline Judged) in
      let judged = pinned-Judged r p x s t a fits same in
      if_both Ok (no_reply_error e)
        (
          tt,
          λ gone ok. if_both Ok gone judged (
            tt,
            λ current ok'.
                refence-Ends rid r p x e (refence_endpoint current r) current s t a refl xe fits
                  same,
          ),
        )
        judged

  pinned_valid :
      (r : SessionOperationRecord Op)
      → valid_session_operation_record r ≡ true
      → valid_recovery_endpoint r.recovery_endpoint ≡ true
  unfolding valid_session_operation_record valid_fields
  pinned_valid r h = ground arith

  -- The first exchange of an attempt may be made, and its outcome is judged in turn.
  pub exchanges-Ends :
      (rid : Bytes) (r : SessionOperationRecord Op) (s : Seen Op)
      → Attempted r s
      → Ensures discipline
          (ask (exchange r.operation r.recovery_endpoint) (λ x. pinned_replied rid r x))
          s
          (Ends discipline Judged)
  unfolding pinned_replied
  exchanges-Ends rid r s a = (
    record {
      held = r;
      written = a.written;
      operation = refl;
      open_status = a.open_status;
      left = omega (arith, a.sends);
      endpoint_valid = pinned_valid r a.decoded.valid;
    },
    λ x fits.
        pinned_failed-Ends rid r r.recovery_endpoint x x.error s (heard s r r.recovery_endpoint x) a
          refl fits refl,
  )
