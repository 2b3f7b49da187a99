-- ===== src/Keeper/Exec.antt =====
-- The exec backend of the keeper (internal/keeper/exec/exec.go): it runs a command with the ref as
-- its argument and returns what the command prints. The process is a parameter; timeouts and log
-- records are not modelled.
pub mod Output
use chur.Base.{
  ℕ, Bool, true, false, Option, none, some, if◌then◌else◌, Result, ok, err, ◌>>=◌, ◌>>◌, length,
}
use chur.Base.Int.{ℤ, pos, ltb_ℤ, succ_int64}
use chur.Text.{Text}
use chur.Validate.{Reason, validate_keeper_ref}
use chur.Io.{Stream, read_limited}

pub data ExecError {ℓ} (E : Type ℓ) : Type ℓ where
  bad_max_stdout : ℤ → ExecError E
  bad_ref : Reason → ExecError E
  no_pipe no_start unread_stdout command_failed : E → ExecError E
  stdout_too_large timed_out : ExecError E

-- The command that a ref is passed to: the errors of its pipe and its start, what it prints, how
-- it exits, and whether its context has ended by then.
pub record Command {ℓ} (E : Type ℓ) : Type ℓ where
  pub pipe_failure : Option E
  pub start_failure : Option E
  pub stdout : Stream E
  pub wait_failure : Option E
  pub ctx_ended : Bool

module _ {ℓ} {E : Type ℓ} where
  -- An error of a call, with the place that wraps it.
  unfoldable pub attempt : (E → ExecError E) → Option E → Result (ExecError E) (Unit {0})
  attempt wrap none = ok tt
  attempt wrap (some e) = err (wrap e)

  unfoldable pub valid_ref : Option Reason → Result (ExecError E) (Unit {0})
  valid_ref none = ok tt
  valid_ref (some r) = err (bad_ref r)

  -- The command's exit.
  unfoldable pub exited : Bool → Option E → Result (ExecError E) (Unit {0})
  exited ctx_ended none = ok tt
  exited ctx_ended (some e) = if ctx_ended then err timed_out else err (command_failed e)

  -- What io.CopyN copied, its error but io.EOF, and the exit of the command. A command that prints
  -- too much is killed, and its exit does not matter.
  unfoldable pub collect : ℤ → Command E → Text × Option E → Result (ExecError E) Text
  unfolding attempt exited
  collect max_stdout c (out, copy_failure) =
      if ltb_ℤ max_stdout (pos (length out))
      then err stdout_too_large
      else attempt unread_stdout copy_failure >> (exited c.ctx_ended c.wait_failure >> ok out)

  -- New, by the limit of the backend that it makes.
  unfoldable pub new_backend : ℤ → Result (ExecError E) ℤ
  new_backend max_stdout =
      if ltb_ℤ (pos 0) max_stdout then ok max_stdout else err (bad_max_stdout max_stdout)

  -- ExecBackend.GetSecret
  unfoldable pub get_exec_secret : ℤ → (Text → Command E) → Text → Result (ExecError E) Text
  unfolding attempt valid_ref collect
  get_exec_secret max_stdout run ref = do
    valid_ref (validate_keeper_ref ref)
    attempt no_pipe (run ref).pipe_failure
    attempt no_start (run ref).start_failure
    collect max_stdout (run ref) (read_limited (succ_int64 max_stdout) (run ref).stdout)
