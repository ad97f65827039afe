-- ===== src/Bus/Publish.antt =====
-- Publish of cqrs/impl/memory/event_bus.go: what becomes of the errors and panics of the handlers.
use mathlib.Core.List.{Permᴰ}
use ddd_qce.Common.{
  ℕ, ◌≡◌, ◌↔◌, refl, sym, ap, ◌∙◌, subst, String, Bool, false, ◌||◌, Option, none, some, List, [],
  ◌∷◌, arith, All, lookup, or_nil,
}
use ddd_qce.Errors.{Err, errors_is, any_is, to_errs, new_multi_error}
use ddd_qce.Aspect.{AspectChain, execute_with_event_aspects}
use ddd_qce.Bus.{
  HandlerEnd, finished, panicked, HandlerEntry, EventBus, collect, publish_error, unwinding_chain,
  invoked, sent, run_handler, run_handlers, publish,
}
use ddd_qce.Bus.Unwinding.{Ends, ChainOutcome, run_unwinding-ChainOutcome}

-- Whether an error is there and is of a code.
abbrev pub is_code : String → Option Err → Bool
is_code code none = false
is_code code (some e) = errors_is e code

-- Whether some handler's goroutine ended with an error of a code; a panic has none.
abbrev pub any_ended : String → List HandlerEnd → Bool
any_ended code [] = false
any_ended code (finished none ∷ ds) = any_ended code ds
any_ended code (finished (some e) ∷ ds) = errors_is e code || any_ended code ds
any_ended code (panicked r ∷ ds) = any_ended code ds

-- A handler that returned no error and did not panic.
pub data IsFine : HandlerEnd → Type 0 where
  fine : IsFine (finished none)

abbrev any_code : String → List Err → Bool
any_code code [] = false
any_code code (e ∷ es) = errors_is e code || any_code code es

any_is-to_errs : (code : String) (es : List Err) → any_is (to_errs es) code ≡ any_code code es
unfolding to_errs any_is
any_is-to_errs code [] = refl
any_is-to_errs code (e ∷ es) = ap (λ b. errors_is e code || b) (any_is-to_errs code es)

publish_error-code :
    (code : String) (es : List Err) → is_code code (publish_error es) ≡ any_code code es
unfolding publish_error new_multi_error errors_is
publish_error-code code [] = refl
publish_error-code code (e ∷ []) = ground arith
publish_error-code code (e ∷ f ∷ rest) = any_is-to_errs code (e ∷ f ∷ rest)

publish_error-none : (es : List Err) → publish_error es ≡ none → es ≡ []
unfolding publish_error
publish_error-none [] h = refl
publish_error-none (e ∷ []) h = absurd (ground arith)
publish_error-none (e ∷ f ∷ rest) h = absurd (ground arith)

publish_error-nil : publish_error [] ≡ none
unfolding publish_error
publish_error-nil = refl

module _ {S Ctx Msg Res : Type 0} (clock : S → ℕ) (evt : Msg) where
  module _ (handler_context : Ctx → String → Ctx) (chain : AspectChain S Ctx Msg Res) where
    -- The handlers end one after the other, each in its own context.
    pub data AllEnd (ctx : Ctx)
        : S → List (HandlerEntry S Ctx Msg) → S → List HandlerEnd → Type 0 where
      no_more : {s : S} → AllEnd ctx s [] s []
      next_ends :
          {s t u : S} {e : HandlerEntry S Ctx Msg} {es : List (HandlerEntry S Ctx Msg)}
          {d : HandlerEnd} {ds : List HandlerEnd}
          → Ends clock evt e chain.event_aspects s (handler_context ctx e.name) t d
          → AllEnd ctx t es u ds
          → AllEnd ctx s (e ∷ es) u (d ∷ ds)

    -- What is collected says what the ends say.
    Says : List HandlerEnd → List Err → Type 0
    Says ds errs =
        (All IsFine ds ↔ (errs ≡ [])) × ((code : String) → any_code code errs ≡ any_ended code ds)

    collect-Says :
        (name : String) (t : S) (d : HandlerEnd) (ds : List HandlerEnd) (errs : List Err)
        → Says ds errs
        → Says (d ∷ ds) (collect (sent name (invoked (t, d))).1 errs)
    unfolding Says collect errors_is
    collect-Says name t (finished none) ds errs ((f, g), c) = ((λ h. f h.1, λ q. (fine, g q)), c)
    collect-Says name t (finished (some x)) ds errs (fg, c) = (
      (λ h. elim h.0 [ ], λ q. absurd (ground arith)),
      λ code. ap (λ b. errors_is x code || b) (c code),
    )
    collect-Says name t (panicked r) ds errs (fg, c) =
        ((λ h. elim h.0 [ ], λ q. absurd (ground arith)), λ code. c code)

    no_errors : Says [] []
    unfolding Says
    no_errors = ((λ h. refl, λ q. tt), λ code. refl)

    sent-state : (name : String) (t : S) (d : HandlerEnd) → (sent name (invoked (t, d))).0 ≡ t
    sent-state name t (finished err) = refl
    sent-state name t (panicked r) = refl

    run_handlers-AllEnd :
        (ctx : Ctx) (s : S) (es : List (HandlerEntry S Ctx Msg))
        → (t : S) × (ds : List HandlerEnd) × (errs : List Err) × AllEnd ctx s es t ds
          × Says ds errs
          × (run_handlers clock handler_context chain s ctx evt es ≡ (t, errs))
    unfolding run_handlers run_handler execute_with_event_aspects unwinding_chain ChainOutcome
    run_handlers-AllEnd ctx s [] = (s, [], [], no_more, no_errors, refl)
    run_handlers-AllEnd ctx s (e ∷ es) =
        let (t, d, ends, q) =
          run_unwinding-ChainOutcome clock evt e chain.event_aspects s
            (handler_context ctx e.name) in
        let (u, ds, errs, all, says, k) = run_handlers-AllEnd ctx t es in
        (
          u,
          d ∷ ds,
          collect (sent e.name (invoked (t, d))).1 errs,
          next_ends ends all,
          collect-Says e.name t d ds errs says,
          ap
                (λ o.
                  let (s1, err) = sent e.name o in
                  let (s2, xs) = run_handlers clock handler_context chain s1 ctx evt es in
                  (s2, collect err xs))
                q
              ∙ ap
                  (λ s1.
                    let (s2, xs) = run_handlers clock handler_context chain s1 ctx evt es in
                    (s2, collect (sent e.name (invoked (t, d))).1 xs))
                  (sent-state e.name t d)
              ∙ ap (λ r. (r.0, collect (sent e.name (invoked (t, d))).1 r.1)) k,
        )

module _ {S Ctx Msg Res : Type 0} (clock : S → ℕ) (handler_context : Ctx → String → Ctx)
    (schedule : List (HandlerEntry S Ctx Msg) → List (HandlerEntry S Ctx Msg))
    (b : EventBus S Ctx Msg Res) where
  publish-some :
      (s : S) (ctx : Ctx) (evt : Msg) (t : String) (e : HandlerEntry S Ctx Msg)
      → (rest : List (HandlerEntry S Ctx Msg)) → b.closed ≡ false
      → or_nil (lookup t b.handlers) ≡ e ∷ rest
      → publish clock handler_context schedule b s ctx evt (some t) ≡ (
          let (s', errs) =
            run_handlers clock handler_context b.chain s ctx evt (schedule (e ∷ rest)) in
          (s', publish_error errs))
  unfolding publish
  publish-some s ctx evt t e rest is_open h = ground arith

  -- Publish on an open bus of an event that has handlers runs each of them once, whatever order
  -- their goroutines end in, where each runs as a whole: in its own context, inside the aspects of
  -- the chain, each of which is left after what is inside it unless that panics. It reports no error
  -- exactly if every handler's chain returned none and nobody panicked, and an error of a code
  -- exactly if some handler's chain returned an error of that code.
  pub publish-AllEnd :
      (s : S) (ctx : Ctx) (evt : Msg) (t : String) (e : HandlerEntry S Ctx Msg)
      → (rest : List (HandlerEntry S Ctx Msg)) → b.closed ≡ false
      → or_nil (lookup t b.handlers) ≡ e ∷ rest
      → Permᴰ (e ∷ rest) (schedule (e ∷ rest))
      → let (s', r) = publish clock handler_context schedule b s ctx evt (some t) in
        (order : List (HandlerEntry S Ctx Msg)) × (ds : List HandlerEnd) × Permᴰ (e ∷ rest) order
        × AllEnd clock evt handler_context b.chain ctx s order s' ds
        × (All IsFine ds ↔ (r ≡ none))
        × ((code : String) → is_code code r ≡ any_ended code ds)
  unfolding Says
  publish-AllEnd s ctx evt t e rest is_open h perm =
      let (u, ds, errs, all, says, k) =
        run_handlers-AllEnd clock evt handler_context b.chain ctx s (schedule (e ∷ rest)) in
      let eq : publish clock handler_context schedule b s ctx evt (some t)
          ≡ (u, publish_error errs) =
        publish-some s ctx evt t e rest is_open h ∙ ap (λ r. (r.0, publish_error r.1)) k in
      (
        schedule (e ∷ rest),
        ds,
        perm,
        subst (λ x. AllEnd clock evt handler_context b.chain ctx s (schedule (e ∷ rest)) x ds)
            (ap (λ r. r.0) (sym eq)) all,
        (
          λ fine_all. ap (λ r. r.1) eq ∙ ap publish_error (says.0.0 fine_all) ∙ publish_error-nil,
          λ q. says.0.1 (publish_error-none errs (ap (λ r. r.1) (sym eq) ∙ q)),
        ),
        λ code. ap (λ r. is_code code r.1) eq ∙ publish_error-code code errs ∙ says.1 code,
      )
