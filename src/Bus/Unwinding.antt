-- ===== src/Bus/Unwinding.antt =====
-- The goroutine of one handler of Publish of cqrs/impl/memory/event_bus.go: its chain, and what a panic
-- does to it.
use ddd_qce.Common.{
  ℕ, ◌-◌, ◌≡◌, refl, ap, ◌∙◌, String, Option, none, some, List, [], ◌∷◌, inl, inr, map,
}
use ddd_qce.Errors.{Err, ok, error}
use ddd_qce.Errors.Laws.{Result-cases}
use ddd_qce.Aspect.{EventAspect, after_error, run_event_aspects}
use ddd_qce.Bus.{HandlerEnd, finished, panicked, HandlerEntry, unwinding, invoked}

module _ {S Ctx Msg Res : Type 0} (clock : S → ℕ) (evt : Msg) where
  -- How the chain of one handler ends: an aspect that refuses ends it; an aspect that lets it in is
  -- left after what is inside, and its error is joined; but a panic inside leaves no aspect.
  pub data Ends (e : HandlerEntry S Ctx Msg)
      : List (EventAspect S Ctx Msg Res) → S → Ctx → S → HandlerEnd → Type 0 where
    handled :
        {s t : S} {ctx : Ctx} {d : HandlerEnd} → e.invoke s ctx evt ≡ (t, d) → Ends e [] s ctx t d
    refused :
        {a : EventAspect S Ctx Msg Res} {rest : List (EventAspect S Ctx Msg Res)} {s t : S}
        {ctx : Ctx} {x : Err}
        → a.before_publish s ctx evt ≡ (t, error x)
        → Ends e (a ∷ rest) s ctx t (finished (some x))
    left :
        {a : EventAspect S Ctx Msg Res} {rest : List (EventAspect S Ctx Msg Res)} {s t u v : S}
        {ctx c : Ctx} {err o : Option Err}
        → a.before_publish s ctx evt ≡ (t, ok c)
        → Ends e rest t c u (finished err)
        → a.after_publish u c evt err (clock u - clock t) ≡ (v, o)
        → Ends e (a ∷ rest) s ctx v (finished (after_error err o))
    unwound :
        {a : EventAspect S Ctx Msg Res} {rest : List (EventAspect S Ctx Msg Res)} {s t u : S}
        {ctx c : Ctx} {r : String}
        → a.before_publish s ctx evt ≡ (t, ok c)
        → Ends e rest t c u (panicked r)
        → Ends e (a ∷ rest) s ctx u (panicked r)

  abbrev pub run_unwinding :
      HandlerEntry S Ctx Msg
      → List (EventAspect S Ctx Msg Res)
      → S
      → Ctx
      → (S × Option String) × Option Err
  run_unwinding e rest s ctx =
      run_event_aspects (λ t. clock t.0) (s, none) ctx evt (λ t c. invoked (e.invoke t.0 c evt))
        (map unwinding rest)

  unfoldable pub ChainOutcome :
      HandlerEntry S Ctx Msg → List (EventAspect S Ctx Msg Res) → S → Ctx → Type 0
  ChainOutcome e rest s ctx =
      (t : S) × (d : HandlerEnd) × Ends e rest s ctx t d
      × (run_unwinding e rest s ctx ≡ invoked (t, d))

  leave :
      EventAspect S Ctx Msg Res
      → Ctx
      → S
      → (S × Option String) × Option Err
      → (S × Option String) × Option Err
  unfolding unwinding after_error
  leave a c t r =
      let (p, o) = (unwinding a).after_publish r.0 c evt r.1 (clock r.0.0 - clock t) in
      (p, after_error r.1 o)

  run_unwinding-refused :
      (e : HandlerEntry S Ctx Msg) (a : EventAspect S Ctx Msg Res)
      → (rest : List (EventAspect S Ctx Msg Res)) (s t : S) (ctx : Ctx) (x : Err)
      → a.before_publish s ctx evt ≡ (t, error x)
      → run_unwinding e (a ∷ rest) s ctx ≡ invoked (t, finished (some x))
  unfolding run_event_aspects unwinding leave
  run_unwinding-refused e a rest s t ctx x h =
      ap
        (λ b. elim b.1 as (λ y. (S × Option String) × Option Err) [
          | error y ↦ ((b.0, none), some y)
          | ok c ↦ leave a c b.0 (run_unwinding e rest b.0 c)
        ])
        h

  run_unwinding-entered :
      (e : HandlerEntry S Ctx Msg) (a : EventAspect S Ctx Msg Res)
      → (rest : List (EventAspect S Ctx Msg Res)) (s t : S) (ctx c : Ctx)
      → a.before_publish s ctx evt ≡ (t, ok c)
      → run_unwinding e (a ∷ rest) s ctx ≡ leave a c t (run_unwinding e rest t c)
  unfolding run_event_aspects unwinding leave
  run_unwinding-entered e a rest s t ctx c h =
      ap
        (λ b. elim b.1 as (λ y. (S × Option String) × Option Err) [
          | error y ↦ ((b.0, none), some y)
          | ok c' ↦ leave a c' b.0 (run_unwinding e rest b.0 c')
        ])
        h

  entered-ChainOutcome :
      (e : HandlerEntry S Ctx Msg) (a : EventAspect S Ctx Msg Res)
      → (rest : List (EventAspect S Ctx Msg Res)) (s t : S) (ctx c : Ctx)
      → a.before_publish s ctx evt ≡ (t, ok c)
      → ChainOutcome e rest t c
      → ChainOutcome e (a ∷ rest) s ctx
  unfolding ChainOutcome leave unwinding after_error
  entered-ChainOutcome e a rest s t ctx c h (u, finished err, ends, q) =
      let after = a.after_publish u c evt err (clock u - clock t) in
      (
        after.0,
        finished (after_error err after.1),
        left h ends refl,
        run_unwinding-entered e a rest s t ctx c h ∙ ap (leave a c t) q,
      )
  entered-ChainOutcome e a rest s t ctx c h (u, panicked r, ends, q) = (
    u,
    panicked r,
    unwound h ends,
    run_unwinding-entered e a rest s t ctx c h ∙ ap (leave a c t) q,
  )

  pub run_unwinding-ChainOutcome :
      (e : HandlerEntry S Ctx Msg) (rest : List (EventAspect S Ctx Msg Res)) (s : S) (ctx : Ctx)
      → ChainOutcome e rest s ctx
  unfolding ChainOutcome run_event_aspects unwinding
  run_unwinding-ChainOutcome e [] s ctx =
      ((e.invoke s ctx evt).0, (e.invoke s ctx evt).1, handled refl, refl)
  run_unwinding-ChainOutcome e (a ∷ rest) s ctx =
      let before = a.before_publish s ctx evt in
      elim (Result-cases before.1) [
        | inl (x, h) ↦ (
          before.0,
          finished (some x),
          refused (ap (λ r. (before.0, r)) h),
          run_unwinding-refused e a rest s before.0 ctx x (ap (λ r. (before.0, r)) h),
        )
        | inr (c, h) ↦
            entered-ChainOutcome e a rest s before.0 ctx c (ap (λ r. (before.0, r)) h)
              (run_unwinding-ChainOutcome e rest before.0 c)
      ]
