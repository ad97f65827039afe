-- ===== src/Metrics/Recording.antt =====
-- MetricsAspect of aspect/builtin/metrics.go, around the rest of a command chain. A recorder acts on
-- a state; the name of a message's type, with its prefix, is a parameter.
use ddd_qce.Common.{
  ℕ, suc, ◌+◌, ◌-◌, ◌<◌, ◌≡◌, refl, ap, subst, String, true, Option, none, some, List, [], ◌∷◌,
  ◌++◌, length, length-append, arith, str_eq_refl,
}
use ddd_qce.Common.Int.{ℤ, pos}
use ddd_qce.Errors.{Err, ok}
use ddd_qce.Aspect.{CommandAspect, QueryAspect, EventAspect, after_error, run_command_aspects}
use ddd_qce.Metrics.{MetricsData, record_duration, record_error}
use ddd_qce.Metrics.Counts.{
  Seen, Shows, with_duration, with_error, record_duration-Shows, record_error-Shows,
}

-- The MetricsRecorder interface.
pub record MetricsRecorder (S : Type 0) : Type 0 where
  pub record_duration : S → String → ℤ → S
  pub record_error : S → String → Err → S

module _ {S : Type 0} (recorder : MetricsRecorder S) where
  -- AfterCommand, AfterQuery and AfterPublish.
  unfoldable pub observe : S → String → Option Err → ℤ → S
  observe s name none d = recorder.record_duration s name d
  observe s name (some e) d = recorder.record_error (recorder.record_duration s name d) name e

  module _ {Ctx Msg Res : Type 0} (operation : Msg → String) where
    unfoldable pub metrics_command : CommandAspect S Ctx Msg Res
    unfolding observe
    metrics_command = record {
      name = "metrics";
      order = pos 100;
      before_command = λ s ctx cmd. (s, ok ctx);
      after_command = λ s ctx cmd result err d. (observe s (operation cmd) err (pos d), none);
    }

    unfoldable pub metrics_query : QueryAspect S Ctx Msg Res
    unfolding observe
    metrics_query = record {
      name = "metrics";
      order = pos 100;
      before_query = λ s ctx query. (s, ok ctx);
      after_query = λ s ctx query result err d. (observe s (operation query) err (pos d), none);
    }

    unfoldable pub metrics_event : EventAspect S Ctx Msg Res
    unfolding observe
    metrics_event = record {
      name = "metrics";
      order = pos 100;
      before_publish = λ s ctx event. (s, ok ctx);
      after_publish = λ s ctx event err d. (observe s (operation event) err (pos d), none);
    }

-- The recorder in memory, beside the state of the handlers.
unfoldable pub in_memory_recorder : {R : Type 0} → MetricsRecorder (MetricsData × R)
unfolding record_duration record_error
in_memory_recorder = record {
  record_duration = λ s name d. (record_duration s.0 name d, s.1);
  record_error = λ s name e. (record_error s.0 name, s.1);
}

-- One more duration, and one more error if there is one.
abbrev pub seen_after : Seen → Option Err → ℤ → Seen
seen_after v none d = record v { durations = v.durations ++ d ∷ [] }
seen_after v (some e) d = record v { durations = v.durations ++ d ∷ []; errors = suc v.errors }

module _ {R : Type 0} where
  observe-Shows :
      (s : MetricsData × R) (name : String) (err : Option Err) (d : ℤ) (v : Seen)
      → length v.durations + v.errors + 2 < 9223372036854775808
      → Shows name s.0 v
      → Shows name (observe in_memory_recorder s name err d).0 (seen_after v err d)
  unfolding observe in_memory_recorder
  observe-Shows s name none d v small h =
      subst (λ b. Shows name (record_duration s.0 name d) (with_duration b d v)) (str_eq_refl name)
        (record_duration-Shows s.0 name name d v (omega (arith, small)) h)
  observe-Shows s name (some e) d v small h =
      let one =
        subst (λ b. Shows name (record_duration s.0 name d) (with_duration b d v))
          (str_eq_refl name) (record_duration-Shows s.0 name name d v (omega (arith, small)) h) in
      subst
        (λ b.
          Shows name (record_error (record_duration s.0 name d) name)
            (with_error b (with_duration true d v)))
        (str_eq_refl name)
        (record_error-Shows (record_duration s.0 name d) name name (with_duration true d v)
          (omega (arith, small, length-append v.durations (d ∷ []))) one)

observe-rest :
    {R : Type 0} (s : MetricsData × R) (name : String) (err : Option Err) (d : ℤ)
    → observe in_memory_recorder s name err d ≡ ((observe in_memory_recorder s name err d).0, s.1)
unfolding observe in_memory_recorder
observe-rest s name none d = refl
observe-rest s name (some e) d = refl

-- The metrics aspect with the recorder in memory changes neither the result nor the error of the rest
-- of the chain, nor the state of the handlers, and records under the command's name one
-- duration, and one error if there is one: a command that fails counts twice in the total.
pub metrics_command-Shows :
    {R Ctx Msg Res : Type 0} (operation : Msg → String) (clock : MetricsData × R → ℕ)
    → (next : MetricsData × R → Ctx → (MetricsData × R) × Option Res × Option Err)
    → (inner : List (CommandAspect (MetricsData × R) Ctx Msg Res))
    → (s : MetricsData × R) (ctx : Ctx) (cmd : Msg)
    → let (s', result, err) = run_command_aspects clock s ctx cmd next inner in
      (v : Seen)
      → length v.durations + v.errors + 2 < 9223372036854775808
      → Shows (operation cmd) s'.0 v
      → (m : MetricsData) × (run_command_aspects clock s ctx cmd next
            (metrics_command in_memory_recorder operation ∷ inner)
          ≡ ((m, s'.1), result, err))
        × Shows (operation cmd) m (seen_after v err (pos (clock s' - clock s)))
unfolding run_command_aspects metrics_command after_error
metrics_command-Shows operation clock next inner s ctx cmd v small h =
    let r = run_command_aspects clock s ctx cmd next inner in
    let d = pos (clock r.0 - clock s) in
    (
      (observe in_memory_recorder r.0 (operation cmd) r.2 d).0,
      ap (λ t. ((t), r.1, r.2)) (observe-rest r.0 (operation cmd) r.2 d),
      observe-Shows r.0 (operation cmd) r.2 d v small h,
    )
