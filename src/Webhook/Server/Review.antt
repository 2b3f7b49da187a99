-- ===== src/Webhook/Server/Review.antt =====
-- What the API server gets back for a review, and what the server records of it.
use chur.Base.{
  Bool, true, false, Option, none, some, List, [], ◌≡◌, refl, ◌≢◌, ◌↔◌, inl, inr, arith, Bool-cases,
  Option-cases,
}
use chur.Text.Laws.{text_eq_iff}
use chur.Text.{bytes, Text}
use chur.Webhook.Pod.{Pod, PatchOperation}
use chur.Webhook.Config.{Config}
use chur.Webhook.Mutator.{AuditInfo, Outcome, unchanged, refused, patched, mutate_pod}
use chur.Webhook.Server.{
  Kind, count_metric, Request, Response, provider_injections, Log, Codecs, is_pod_request, denied,
  allowed_as_is, allowed_with, is_dry_run, respond_patch, respond, mutate_decoded, mutate,
}

-- A response is consistent: allowed without a status code, or denied with one and no patch; the
-- patch type is set exactly with a patch.
pub record IsConsistent (r : Response) : Type 0 where
  pub allowed_no_code : r.allowed ≡ true → r.code ≡ none
  pub denied_code : r.allowed ≡ false → r.code ≢ none
  pub denied_no_patch : r.allowed ≡ false → r.patch ≡ none
  pub type_with_patch : (r.patch_type ≡ true) ↔ (r.patch ≢ none)

-- The request's own identity.
abbrev pub uid_of : Option Request → Text
uid_of none = []
uid_of (some req) = req.uid

respond_patch-IsConsistent :
    (uid : Text) (ai : AuditInfo) (l : Log) (o : Option Text)
    → IsConsistent (respond_patch uid ai l o).0 × ((respond_patch uid ai l o).0.uid ≡ uid)
unfolding respond_patch denied allowed_with
respond_patch-IsConsistent uid ai l none = ground arith
respond_patch-IsConsistent uid ai l (some p) = ground arith

respond-IsConsistent :
    (codecs : Codecs) (req : Request) (pod : Pod) (l : Log) (o : Outcome)
    → IsConsistent (respond codecs req pod l o).0 × ((respond codecs req pod l o).0.uid ≡ req.uid)
unfolding respond denied allowed_as_is
respond-IsConsistent codecs req pod l unchanged = ground arith
respond-IsConsistent codecs req pod l (refused ai e) = ground arith
respond-IsConsistent codecs req pod l (patched ai ops) =
    elim (Bool-cases (is_dry_run req.dry_run)) [
      | inl d ↦ rw d (ground arith)
      | inr d ↦ rw d (
          respond_patch-IsConsistent req.uid ai (count_metric l (provider_injections ai.provider))
            (codecs.marshal_patch ops))
    ]

mutate_decoded-IsConsistent :
    (codecs : Codecs) (cfg : Config) (req : Request) (l : Log) (o : Option Pod)
    → IsConsistent (mutate_decoded codecs cfg req l o).0
      × ((mutate_decoded codecs cfg req l o).0.uid ≡ req.uid)
unfolding mutate_decoded denied
mutate_decoded-IsConsistent codecs cfg req l none = ground arith
mutate_decoded-IsConsistent codecs cfg req l (some pod) =
    respond-IsConsistent codecs req pod l (mutate_pod codecs.unmarshal_env (some pod) (some cfg))

-- Every review is answered by a consistent response that carries the uid of the request: it is
-- either allowed without a status, or denied with a status and no patch, and the patch type is
-- set exactly when there is a patch.
pub mutate-IsConsistent :
    (codecs : Codecs) (cfg : Config) (review : Option Request) (l : Log)
    → IsConsistent (mutate codecs cfg review l).0
      × ((mutate codecs cfg review l).0.uid ≡ uid_of review)
unfolding mutate denied
mutate-IsConsistent codecs cfg none l = ground arith
mutate-IsConsistent codecs cfg (some req) l = elim (Bool-cases (is_pod_request req.kind)) [
  | inl d ↦ rw d (mutate_decoded-IsConsistent codecs cfg req l (codecs.decode_pod req.object))
  | inr d ↦ rw d (ground arith)
]

is_dry_run-false : (o : Option Bool) → is_dry_run o ≡ false → o ≢ some true
unfolding is_dry_run
is_dry_run-false none h q = cc
is_dry_run-false (some b) h q = ground arith

is_pod_request-true :
    (k : Kind)
    → is_pod_request k ≡ true
    → (k.group ≡ []) × (k.version ≡ bytes "v1") × (k.kind ≡ bytes "Pod")
unfolding is_pod_request
is_pod_request-true k h = (
  (text_eq_iff k.group []).0 (ground arith),
  (text_eq_iff k.version (bytes "v1")).0 (ground arith),
  (text_eq_iff k.kind (bytes "Pod")).0 (ground arith),
)

-- The outcome of MutatePod that is answered with a patch.
pub record IsEncoded (codecs : Codecs) (req : Request) (o : Outcome) (patch : Text) : Type 0 where
  pub info : AuditInfo
  pub ops : List PatchOperation
  pub computed : o ≡ patched info ops
  pub not_dry : req.dry_run ≢ some true
  pub encoded : codecs.marshal_patch ops ≡ some patch

respond_patch-patch :
    (uid : Text) (ai : AuditInfo) (l : Log) (o : Option Text) (patch : Text)
    → (respond_patch uid ai l o).0.patch ≡ some patch
    → o ≡ some patch
unfolding respond_patch denied allowed_with
respond_patch-patch uid ai l none patch e = absurd (ground arith)
respond_patch-patch uid ai l (some p) patch e = e

respond-patch :
    (codecs : Codecs) (req : Request) (pod : Pod) (l : Log) (o : Outcome) (patch : Text)
    → (respond codecs req pod l o).0.patch ≡ some patch
    → IsEncoded codecs req o patch
unfolding respond denied allowed_as_is allowed_with
respond-patch codecs req pod l unchanged patch e = absurd (ground arith)
respond-patch codecs req pod l (refused ai f) patch e = absurd (ground arith)
respond-patch codecs req pod l (patched ai ops) patch e =
    elim (Bool-cases (is_dry_run req.dry_run)) [
      | inl d ↦ absurd (ground arith)
      | inr d ↦ record {
        info = ai;
        ops = ops;
        computed = refl;
        not_dry = is_dry_run-false req.dry_run d;
        encoded =
            respond_patch-patch req.uid ai (count_metric l (provider_injections ai.provider))
              (codecs.marshal_patch ops) patch (rw d at e);
      }
    ]

-- What a review is answered with a patch for.
pub record IsPatchedBy (codecs : Codecs) (cfg : Config) (req : Request) (patch : Text)
    : Type 0 where
  pub pod : Pod
  pub of_kind :
      (req.kind.group ≡ []) × (req.kind.version ≡ bytes "v1") × (req.kind.kind ≡ bytes "Pod")
  pub decoded : codecs.decode_pod req.object ≡ some pod
  pub outcome : IsEncoded codecs req (mutate_pod codecs.unmarshal_env (some pod) (some cfg)) patch

-- A review is answered with a patch only if its request is for a core v1 Pod that decodes, is not
-- a dry run, and MutatePod gave a list of operations: the patch is then the encoding of them.
pub mutate-patch :
    (codecs : Codecs) (cfg : Config) (req : Request) (l : Log) (patch : Text)
    → (mutate codecs cfg (some req) l).0.patch ≡ some patch
    → IsPatchedBy codecs cfg req patch
unfolding mutate denied mutate_decoded
mutate-patch codecs cfg req l patch e = elim (Bool-cases (is_pod_request req.kind)) [
  | inl k ↦ elim (Option-cases (codecs.decode_pod req.object)) [
    | inl n ↦ absurd (ground arith)
    | inr (pod, d) ↦ record {
      pod = pod;
      of_kind = is_pod_request-true req.kind k;
      decoded = d;
      outcome =
          respond-patch codecs req pod l (mutate_pod codecs.unmarshal_env (some pod) (some cfg))
            patch (rw (k, d) at e);
    }
  ]
  | inr k ↦ absurd (ground arith)
]
