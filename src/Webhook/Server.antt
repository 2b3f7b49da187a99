-- ===== src/Webhook/Server.antt =====
-- The admission server (internal/webhook/server.go). The decoders and encoders of Kubernetes and
-- of the standard library are parameters; a request's metrics and audit records are a log that
-- grows. Messages and durations are not modelled.
pub mod Review
pub mod Audit
pub mod Serving
use chur.Base.{
  ℕ, ◌+◌, ◌-◌, suc, Bool, true, false, not, ◌&&◌, ◌||◌, Option, none, some, List, [], ◌∷◌, ◌++◌,
  if◌then◌else◌, Result, ok, err,
}
use chur.Text.{Text, bytes, text_eq, is_empty}
use chur.Dict.{Dict}
use chur.Webhook.Pod.{Pod, PatchOperation}
use chur.Webhook.Config.{Config, MutateError, is_validation}
use chur.Webhook.Mutator.{AuditInfo, Outcome, unchanged, refused, patched, mutate_pod}

-- metav1.GroupVersionKind
pub record Kind : Type 0 where
  pub group : Text
  pub version : Text
  pub kind : Text

-- admissionv1.AdmissionRequest
pub record Request : Type 0 where
  pub uid : Text
  pub kind : Kind
  pub object : Text
  pub dry_run : Option Bool

-- admissionv1.AdmissionResponse: the code of its status, the patch, and whether the patch type is
-- set (to JSONPatch).
pub record Response : Type 0 where
  pub uid : Text
  pub allowed : Bool
  pub code : Option ℕ
  pub patch : Option Text
  pub patch_type : Bool

-- The increments of the counters, by their labels.
pub data Metric : Type 0 where
  admission_requests : Bool → Bool → Metric
  admission_errors : Text → Metric
  admission_results : Text → Metric
  provider_injections : Text → Metric

-- The audit record of a request, with its result.
pub record AuditEntry : Type 0 where
  pub request_uid : Text
  pub info : AuditInfo
  pub result : Text

pub record Log : Type 0 where
  pub metrics : List Metric
  pub audit : List AuditEntry

abbrev pub count_metric : Log → Metric → Log
count_metric l m = record l { metrics = l.metrics ++ m ∷ [] }

abbrev write_audit : Log → Text → AuditInfo → Text → Log
write_audit l uid info result = record l {
  audit = l.audit ++ record { request_uid = uid; info = info; result = result } ∷ [];
}

unfoldable pub is_pod_request : Kind → Bool
is_pod_request k =
    text_eq k.group [] && text_eq k.version (bytes "v1") && text_eq k.kind (bytes "Pod")

-- A refusal with a status.
unfoldable pub denied : Text → ℕ → Response
denied uid code = record {
  uid = uid;
  allowed = false;
  code = some code;
  patch = none;
  patch_type = false;
}

unfoldable pub allowed_as_is : Text → Response
allowed_as_is uid = record {
  uid = uid;
  allowed = true;
  code = none;
  patch = none;
  patch_type = false;
}

unfoldable pub allowed_with : Text → Text → Response
allowed_with uid patch = record {
  uid = uid;
  allowed = true;
  code = none;
  patch = some patch;
  patch_type = true;
}

-- *review.Request.DryRun, where it is set
unfoldable pub is_dry_run : Option Bool → Bool
is_dry_run none = false
is_dry_run (some b) = b

-- The libraries that the server calls: the decoder of a pod, the encoder of the patch, and the
-- decoder of the provider-env annotation.
pub record Codecs : Type 0 where
  pub decode_pod : Text → Option Pod
  pub marshal_patch : List PatchOperation → Option Text
  pub unmarshal_env : Text → Option (Dict Text)

-- The answer to a marshalled patch; `none` is the encoder's error.
unfoldable pub respond_patch : Text → AuditInfo → Log → Option Text → Response × Log
respond_patch uid ai l none =
    let l1 = count_metric l (admission_errors (bytes "internal")) in
    let l2 = count_metric l1 (admission_results (bytes "error")) in
    (denied uid 500, write_audit l2 uid ai (bytes "error"))
respond_patch uid ai l (some patch) =
    let l1 = count_metric l (admission_results (bytes "mutated")) in
    (allowed_with uid patch, write_audit l1 uid ai (bytes "mutated"))

-- What `mutate` does with the three results of MutatePod.
unfoldable pub respond : Codecs → Request → Pod → Log → Outcome → Response × Log
unfolding respond_patch
respond codecs req pod l unchanged =
    let ai : AuditInfo = record { namespace = pod.namespace; pod = pod.name; provider = [] } in
    let l1 = count_metric l (admission_results (bytes "allowed")) in
    (allowed_as_is req.uid, write_audit l1 req.uid ai (bytes "allowed"))
respond codecs req pod l (refused ai e) =
    let reason = if is_validation e then bytes "validation_error" else bytes "internal" in
    let l1 = count_metric l (admission_errors reason) in
    let l2 = count_metric l1 (admission_results (bytes "error")) in
    (
      denied req.uid (if is_validation e then 400 else 500),
      write_audit l2 req.uid ai (bytes "error"),
    )
respond codecs req pod l (patched ai patches) =
    let l1 = count_metric l (admission_results (bytes "allowed")) in
    let dry : Response × Log =
      (allowed_as_is req.uid, write_audit l1 req.uid ai (bytes "allowed")) in
    let l2 = count_metric l (provider_injections ai.provider) in
    if is_dry_run req.dry_run
    then dry
    else respond_patch req.uid ai l2 (codecs.marshal_patch patches)

-- The pod of the request, if it could be decoded.
unfoldable pub mutate_decoded : Codecs → Config → Request → Log → Option Pod → Response × Log
unfolding respond
mutate_decoded codecs cfg req l none = (denied req.uid 400, l)
mutate_decoded codecs cfg req l (some pod) =
    respond codecs req pod l (mutate_pod codecs.unmarshal_env (some pod) (some cfg))

-- The request of the review, if it has one.
unfoldable pub mutate : Codecs → Config → Option Request → Log → Response × Log
unfolding mutate_decoded
mutate codecs cfg none l = (denied [] 400, l)
mutate codecs cfg (some req) l =
    if not (is_pod_request req.kind)
    then (denied req.uid 400, l)
    else mutate_decoded codecs cfg req l (codecs.decode_pod req.object)

unfoldable pub mutate_with_metrics : Codecs → Config → Option Request → Log → Response × Log
unfolding mutate
mutate_with_metrics codecs cfg review l =
    let (r, l1) = mutate codecs cfg review l in
    (r, count_metric l1 (admission_requests r.allowed r.patch_type))

-- What ServeHTTP writes: an error's status, or the encoded review with its response.
pub data HttpReply : Type 0 where
  http_error : ℕ → HttpReply
  answered : Response → HttpReply

-- The part of the server's state that requests share.
pub record HttpState : Type 0 where
  pub taken : ℕ
  pub in_flight : ℕ
  pub log : Log

-- The reply to a body that was decoded to a review, or not.
unfoldable pub serve_review : Codecs → Config → Log → Option (Option Request) → HttpReply × Log
unfolding mutate_with_metrics
serve_review codecs cfg l none = (http_error 400, l)
serve_review codecs cfg l (some review) =
    let (r, l1) = mutate_with_metrics codecs cfg review l in (answered r, l1)

-- The slot is given back by the deferred call on every path.
unfoldable pub serve_in_slot :
    Codecs → Config → HttpState → Option (Option Request) → HttpReply × HttpState
unfolding serve_review
serve_in_slot codecs cfg s body =
    let s1 = record s { taken = s.taken + 1; in_flight = s.in_flight + 1 } in
    let (reply, l) = serve_review codecs cfg s1.log body in
    (reply, record { taken = s1.taken - 1; in_flight = s1.in_flight - 1; log = l })

-- ServeHTTP: `got_slot` is the case that `select` takes, and `body` what the decoder makes of at
-- most 10 MiB of the body.
unfoldable pub serve_http :
    Codecs → Config → Bool → HttpState → Text → Option (Option Request) → HttpReply × HttpState
unfolding serve_in_slot
serve_http codecs cfg got_slot s method body =
    if not (text_eq method (bytes "POST"))
    then (http_error 405, s)
    else if not got_slot
    then (
      http_error 503,
      record s { log = count_metric s.log (admission_errors (bytes "timeout")) },
    )
    else serve_in_slot codecs cfg s body
