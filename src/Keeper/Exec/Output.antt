-- ===== src/Keeper/Exec/Output.antt =====
-- The exec backend returns exactly the whole output of a command that succeeded.
use chur.Base.{
  ℕ, ◌+◌, ◌<◌, ◌≤◌, Bool, true, false, Option, none, some, [], ◌≡◌, ◌≢◌, ◌↔◌, refl, sym, ap, inl,
  inr, arith, Bool-cases, ok, ◌>>◌, bind-eq-ok, ok-injective, length, ltb, leb, length-take,
}
use chur.Base.Int.{pos, max_int64}
use chur.Text.{Text}
use chur.Validate.{Reason, validate_keeper_ref}
use chur.Validate.Paths.{IsPath, IsAbsolute, validate_keeper_ref_iff}
use chur.Io.{Stream, read_limited}
use chur.ReadUtil.Bounded.{IsContent, succ_int64-pos}
use chur.Keeper.Exec.{
  ExecError, no_pipe, no_start, unread_stdout, Command, attempt, valid_ref, exited, collect,
  get_exec_secret,
}

module _ {ℓ} {E : Type ℓ} where
  attempt-ok :
      (wrap : E → ExecError E) (o : Option E) {u : Unit {0}} → attempt wrap o ≡ ok u → o ≡ none
  unfolding attempt
  attempt-ok wrap none h = refl
  attempt-ok wrap (some e) h = cc

  valid_ref-ok : (o : Option Reason) {u : Unit {0}} → valid_ref {E = E} o ≡ ok u → o ≡ none
  unfolding valid_ref
  valid_ref-ok none h = refl
  valid_ref-ok (some r) h = cc

  exited-ok : (b : Bool) (o : Option E) {u : Unit {0}} → exited b o ≡ ok u → o ≡ none
  unfolding exited
  exited-ok b none h = refl
  exited-ok true (some e) h = cc
  exited-ok false (some e) h = cc

  collect-ok :
      (max : ℕ) (c : Command E) (out : Text) (o : Option E) {content : Text}
      → collect (pos max) c (out, o) ≡ ok content
      → (out ≡ content) × (o ≡ none) × (c.wait_failure ≡ none) × (length out ≤ max)
  unfolding collect
  collect-ok max c out o h = elim (Bool-cases (ltb max (length out))) [
    | inl t ↦ absurd (cc (rw t at h))
    | inr t ↦
        let (u1, a, h1) =
          bind-eq-ok (attempt unread_stdout o) (λ u. exited c.ctx_ended c.wait_failure >> ok out)
            (rw t at h) in
        let (u2, b, h2) = bind-eq-ok (exited c.ctx_ended c.wait_failure) (λ u. ok out) h1 in
        (
          ok-injective h2,
          attempt-ok unread_stdout o a,
          exited-ok c.ctx_ended c.wait_failure b,
          ground arith,
        )
  ]

  -- A read that stays within the limit has met the end.
  read_limited-IsContent :
      (max : ℕ) (s : Stream E)
      → (read_limited (pos (max + 1)) s).1 ≡ none
      → length (read_limited (pos (max + 1)) s).0 ≤ max
      → IsContent max s (read_limited (pos (max + 1)) s).0
  unfolding read_limited
  read_limited-IsContent max s f l = elim (Bool-cases (leb (max + 1) (length s.content))) [
    | inl t ↦ absurd (ground (arith, length-take (max + 1) s.content, rw t at l))
    | inr t ↦ rw t (record { whole = refl; no_failure = rw t at f; fits = rw t at l })
  ]

  -- What a successful run of the command gave.
  pub record IsOutput (max : ℕ) (c : Command E) (content : Text) : Type ℓ where
    pub started : (c.pipe_failure ≡ none) × (c.start_failure ≡ none)
    pub read : IsContent max c.stdout content
    pub succeeded : c.wait_failure ≡ none

  IsContent-read_limited :
      (max : ℕ) (s : Stream E) {content : Text}
      → IsContent max s content
      → read_limited (pos (max + 1)) s ≡ (content, none)
  unfolding read_limited
  IsContent-read_limited max s k =
      let less : leb (max + 1) (length s.content) ≡ false =
        ground (arith, k.fits, ap length k.whole) in
      rw (less, k.no_failure) (ap (λ t. (t, none)) (sym k.whole))

  IsOutput-collect :
      (max : ℕ) (c : Command E) {content : Text}
      → IsOutput max c content
      → collect (pos max) c (content, none) ≡ ok content
  unfolding collect attempt exited
  IsOutput-collect max c {content} k =
      let fits : ltb max (length content) ≡ false = ground (arith, k.read.fits) in
      rw (fits, k.succeeded) refl

  -- The exec backend, with a limit below 2^63 - 1, returns a secret exactly if the ref is a relative
  -- path with no `..`, the command was started with it and exited without an error, and the secret
  -- is everything that it printed, within the limit.
  pub get_exec_secret_iff :
      (max : ℕ) (run : Text → Command E) (ref : Text) {content : Text}
      → max < max_int64
      → (get_exec_secret (pos max) run ref ≡ ok content)
        ↔ (((ref ≢ []) × (¬ IsAbsolute ref) × IsPath ref) × IsOutput max (run ref) content)
  unfolding get_exec_secret valid_ref attempt
  get_exec_secret_iff max run ref m = (
    λ h.
        let c = run ref in
        let (u1, a, h1) = bind-eq-ok (valid_ref (validate_keeper_ref ref)) _ h in
        let (u2, b, h2) = bind-eq-ok (attempt no_pipe c.pipe_failure) _ h1 in
        let (u3, d, h3) = bind-eq-ok (attempt no_start c.start_failure) _ h2 in
        let (e, f, g, l) =
          collect-ok max c (read_limited (pos (max + 1)) c.stdout).0
            (read_limited (pos (max + 1)) c.stdout).1 (rw (succ_int64-pos max m) at h3) in
        (
          (validate_keeper_ref_iff ref).0 (valid_ref-ok _ a),
          record {
            started = (attempt-ok no_pipe _ b, attempt-ok no_start _ d);
            read = rw (← e) (read_limited-IsContent max c.stdout f l);
            succeeded = g;
          },
        ),
    λ (v, k).
        let printed = IsContent-read_limited max (run ref).stdout k.read in
        rw
          (
            (validate_keeper_ref_iff ref).1 v,
            k.started.0,
            k.started.1,
            succ_int64-pos max m,
            printed,
          )
          (IsOutput-collect max (run ref) k),
  )
