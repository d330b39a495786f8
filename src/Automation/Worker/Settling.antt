-- ===== src/Automation/Worker/Settling.antt =====
-- What the end of a run keeps of the records of its steps.
use infra_inventory.Prelude.{
  ℕ, ◌-◌, ◌≡◌, refl, Bool, false, none, some, String, arith, ap, ◌∙◌, sym, subst,
}
use infra_inventory.Automation.Worker.Effects.{
  RunStatus, World, Env, M, Res, ok, throw, pure, ◌>>◌, log, read_clock, persist, try_catch, handle,
  finally, Write, Log, bind-eq-ok, EarlyFailure,
}
use infra_inventory.Automation.Worker.Steps.{run_steps}
use infra_inventory.Automation.Worker.Verdict.{
  any_failure, any_timeout, Sync, Quiet, run_steps-Sync,
}
use infra_inventory.Automation.Worker.{
  Options, Workflow, Outcome, run_all, final_status, conclude, maybe_metrics, record_metrics,
  count_success, count_failure, note_failure, save_result, is_success, total_timeout_ms, crash,
  refuse, release_target,
}

record_metrics-Quiet :
    (env : Env) (o : Options) (wf : Workflow) (status : RunStatus) (w : World)
    → Quiet w (record_metrics env o wf status w).1
unfolding record_metrics count_success note_failure count_failure read_clock log
record_metrics-Quiet env o wf status w = ground arith

-- The outcome of a run that was not refused and did not crash, in terms of what it left behind.
abbrev pub Agrees : Outcome → World → Type 0
Agrees out w' =
    (out.status ≡ final_status (any_failure w'.writes) (any_timeout w'.logs))
    × (out.success ≡ is_success out.status)

save_result-Agrees :
    (env : Env) (f t : Bool) (duration : ℕ) (w : World) (out : Outcome) (w' : World)
    → Sync f t w
    → (save_result env (final_status f t) duration f
          >> pure (record {
            success = is_success (final_status f t);
            status = final_status f t;
            error = none;
          }))
        w
      ≡ (ok out, w')
    → Agrees out w'
unfolding save_result persist
save_result-Agrees env f t duration w out w' s h = ground arith

-- A part that keeps the record, and did not throw.
pub Sync-Quiet : (f t : Bool) (w w' : World) → Sync f t w → Quiet w w' → Sync f t w'
Sync-Quiet f t w w' s q = record {
  failed = s.failed ∙ ap any_failure (sym (q.0));
  timeout = s.timeout ∙ sym (q.1);
}

pub Quiet-end :
    {A : Type 0} (m : M A) (w w' : World) (a : A) → Quiet w (m w).1 → m w ≡ (ok a, w') → Quiet w w'
Quiet-end m w w' a q e = subst (λ v. Quiet w v) (λ i. (e i).1) q

maybe_metrics-Quiet :
    (env : Env) (o : Options) (wf : Workflow) (status : RunStatus) (w : World)
    → Quiet w (maybe_metrics env o wf status w).1
unfolding maybe_metrics
maybe_metrics-Quiet env o wf status w = ground (arith, record_metrics-Quiet env o wf status w)

read_clock-Quiet : (env : Env) (w : World) → Quiet w (read_clock env w).1
unfolding read_clock
read_clock-Quiet env w = (refl, refl)

conclude-Agrees :
    (env : Env) (o : Options) (wf : Workflow) (start : ℕ) (f t : Bool) (w : World) (out : Outcome)
    (w' : World)
    → Sync f t w
    → conclude env o wf start f t w ≡ (ok out, w')
    → Agrees out w'
unfolding conclude
conclude-Agrees env o wf start f t w out w' s h =
    let (end, w₁, e₁, k₁) = bind-eq-ok (read_clock env) _ w h in
    let s₁ =
      Sync-Quiet f t w w₁ s (Quiet-end (read_clock env) w w₁ end (read_clock-Quiet env w) e₁) in
    let (_, w₂, e₂, k₂) = bind-eq-ok (maybe_metrics env o wf (final_status f t)) _ w₁ k₁ in
    save_result-Agrees env f t (end - start) w₂ out w'
      (Sync-Quiet f t w₁ w₂ s₁ (
        Quiet-end (maybe_metrics env o wf (final_status f t)) w₁ w₂ tt
          (maybe_metrics-Quiet env o wf (final_status f t) w₁) e₂))
      k₂

run_all-Agrees :
    (env : Env) (o : Options) (wf : Workflow) (start : ℕ) (w : World) (out : Outcome) (w' : World)
    → Sync false false w
    → run_all env o wf start w ≡ (ok out, w')
    → Agrees out w'
unfolding run_all
run_all-Agrees env o wf start w out w' s h =
    let (flags, w₁, e, k) =
      bind-eq-ok (run_steps env start (total_timeout_ms wf) wf.steps false) _ w h in
    conclude-Agrees env o wf start (flags.0) (flags.1) w₁ out w'
      (run_steps-Sync env start _ wf.steps false w (flags.0) (flags.1) w₁ s e) k

-- A crash always names its error.
crash-error :
    (env : Env) (message : String) (w : World) (out : Outcome) (w' : World)
    → crash env message w ≡ (ok out, w')
    → out.error ≡ some message
unfolding crash persist log
crash-error env message w out w' h = ground arith

handled-Agrees :
    (env : Env) (r : Res Outcome) (v : World) (out : Outcome) (w' : World)
    → ((out' : Outcome) → r ≡ ok out' → Agrees out' v)
    → handle (crash env) (r, v) ≡ (ok out, w')
    → out.error ≡ none
    → Agrees out w'
handled-Agrees env (ok out') v out w' good h e = ground (arith, good out' refl)
handled-Agrees env (throw message) v out w' good h e =
    ground (arith, crash-error env message v out w' h)

pub refuse-error :
    (env : Env) (why : EarlyFailure) (error : String) (w : World) (out : Outcome) (w' : World)
    → refuse env why error w ≡ (ok out, w')
    → out.error ≡ some error
unfolding refuse persist
refuse-error env why error w out w' h = ground arith

-- The `finally` changes the locks only.
released-Agrees :
    (o : Options) (out : Outcome) (w : World) → Agrees out w → Agrees out (release_target o w)
unfolding release_target
released-Agrees o out w v = ground arith

pub guarded-Agrees :
    (env : Env) (o : Options) (wf : Workflow) (start : ℕ) (w : World) (out : Outcome) (w' : World)
    → Sync false false w
    → finally (try_catch (run_all env o wf start) (crash env)) (release_target o) w ≡ (ok out, w')
    → out.error ≡ none
    → Agrees out w'
guarded-Agrees env o wf start w out w' s h e =
    subst (Agrees out) (λ i. (h i).1)
      (released-Agrees o out _ (
        handled-Agrees env (run_all env o wf start w).0 (run_all env o wf start w).1 out _
          (λ out' e'.
            run_all-Agrees env o wf start w out' _ s (λ i. (e' i, (run_all env o wf start w).1)))
          (λ i. ((h i).0, (try_catch (run_all env o wf start) (crash env) w).1)) e))

-- The steps before the `try`: none fails a step or times out.
pub begun-Sync :
    (env : Env) (dry : Bool) (w w₁ w₂ w₃ w₄ : World) (start : ℕ)
    → Sync false false w
    → persist env Write.run_started w ≡ (ok tt, w₁)
    → log Log.started w₁ ≡ (ok tt, w₂)
    → log (Log.mode dry) w₂ ≡ (ok tt, w₃)
    → read_clock env w₃ ≡ (ok start, w₄)
    → Sync false false w₄
unfolding persist log read_clock
begun-Sync env dry w w₁ w₂ w₃ w₄ start s e₁ e₂ e₃ e₄ = ground arith
