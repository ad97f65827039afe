-- ===== src/App/Closing.antt =====
-- What Close of app/app.go runs.
use ddd_qce.Common.{
  ◌≡◌, inl, inr, refl, sym, ap, ◌∙◌, String, Bool, true, false, Option, none, some, List, [], ◌∷◌,
  ◌++◌, append-nil, map, append_assoc, Bool-cases, if◌then◌else◌,
}
use ddd_qce.Errors.{Err, Arg, text}
use ddd_qce.App.{App, Action, add_error, shutdown_all, clean_all, shutdown_error, close}

-- An error in front of others.
abbrev pub prepend : Option Err → List Err → List Err
prepend none es = es
prepend (some e) es = e ∷ es

-- Calls in order, each in the state that the one before leaves, with the errors that they return.
pub data Runs {S : Type 0} : S → List (Action S) → S → List Err → Type 0 where
  stop : {s : S} → Runs s [] s []
  then_run :
      {s t : S} {f : Action S} {fs : List (Action S)} {es : List Err}
      → Runs (f s).0 fs t es
      → Runs s (f ∷ fs) t (prepend (f s).1 es)

add_error-append :
    (errs : List Err) (o : Option Err) (es : List Err)
    → add_error errs o ++ es ≡ errs ++ prepend o es
add_error-append errs none es = refl
add_error-append errs (some e) es = append_assoc errs (e ∷ []) es

module _ {S : Type 0} where
  clean_all-Runs :
      (s : S) (errs : List Err) (fs : List (Action S))
      → (t : S) × (es : List Err) × Runs s fs t es × (clean_all s errs fs ≡ (t, errs ++ es))
  unfolding clean_all
  clean_all-Runs s errs [] = (s, [], stop, ap (λ x. (s, x)) (sym (append-nil errs)))
  clean_all-Runs s errs (f ∷ fs) =
      let (t, es, r, q) = clean_all-Runs (f s).0 (add_error errs (f s).1) fs in
      (t, prepend (f s).1 es, then_run r, q ∙ ap (λ x. (t, x)) (add_error-append errs (f s).1 es))

  -- The lifecycles of a list shut down in order, while the context is not done after one.
  pub data Shuts (is_done : S → Bool) : S → List (Action S) → S → List Err → Type 0 where
    all_shut : {s : S} → Shuts is_done s [] s []
    interrupted :
        {s : S} {l : Action S} {ls : List (Action S)}
        → is_done (l s).0 ≡ true
        → Shuts is_done s (l ∷ ls) (l s).0 (prepend (l s).1 [])
    shut_next :
        {s t : S} {l : Action S} {ls : List (Action S)} {es : List Err}
        → is_done (l s).0 ≡ false
        → Shuts is_done (l s).0 ls t es
        → Shuts is_done s (l ∷ ls) t (prepend (l s).1 es)

  shutdown_all-Shuts :
      (is_done : S → Bool) (s : S) (errs : List Err) (ls : List (Action S))
      → (t : S) × (es : List Err) × Shuts is_done s ls t es
        × (shutdown_all is_done s errs ls ≡ (t, errs ++ es))
  unfolding shutdown_all
  shutdown_all-Shuts is_done s errs [] = (s, [], all_shut, ap (λ x. (s, x)) (sym (append-nil errs)))
  shutdown_all-Shuts is_done s errs (l ∷ ls) =
      let added = add_error errs (l s).1 in
      let later = shutdown_all is_done (l s).0 added ls in
      let choose : Bool → S × List Err = λ b. if b then ((l s).0, added) else later in
      elim (Bool-cases (is_done (l s).0)) [
        | inl d ↦ (
          (l s).0,
          prepend (l s).1 [],
          interrupted d,
          ap choose d
              ∙ ap (λ x. ((l s).0, x)) (sym (append-nil added) ∙ add_error-append errs (l s).1 []),
        )
        | inr d ↦
            let (t, es, r, q) = shutdown_all-Shuts is_done (l s).0 added ls in
            (
              t,
              prepend (l s).1 es,
              shut_next d r,
              ap choose d ∙ q ∙ ap (λ x. (t, x)) (add_error-append errs (l s).1 es),
            )
      ]

-- What Close says of the errors: nothing if there are none, and else the text of every one.
pub data Reports (error_text : Err → String) : List Err → Option Err → Type 0 where
  no_error : Reports error_text [] none
  all_errors :
      {e : Err} {es : List Err}
      → Reports error_text
          (e ∷ es)
          (some (text "shutdown errors: %v" (map (λ x. Arg.str (error_text x)) (e ∷ es))))

shutdown_error-Reports :
    (error_text : Err → String) (es : List Err)
    → Reports error_text es (shutdown_error error_text es)
unfolding shutdown_error
shutdown_error-Reports error_text [] = no_error
shutdown_error-Reports error_text (e ∷ es) = all_errors

module _ {S CB QB EB Ch Backend Config : Type 0} where
  -- Close shuts the lifecycles down in order, all of them unless the context is done after one, and
  -- then exactly those up to the first after which it is; then it runs every cleanup in order,
  -- whatever failed before. It returns nil exactly if none of these calls returned an error, and
  -- else one error with the texts of all their errors, in order.
  pub close-Runs :
      (is_done : S → Bool) (error_text : Err → String)
      → (a : App S CB QB EB Ch Backend Config) (s : S)
      → (t u : S) × (es fs : List Err) × (r : Option Err) × Shuts is_done s a.lifecycles t es
        × Runs t a.cleanup u fs
        × Reports error_text (es ++ fs) r
        × (close is_done error_text a s ≡ (u, r))
  unfolding close
  close-Runs is_done error_text a s =
      let (t, es, r, q) = shutdown_all-Shuts is_done s [] a.lifecycles in
      let (u, fs, c, k) = clean_all-Runs t es a.cleanup in
      (
        t,
        u,
        es,
        fs,
        shutdown_error error_text (es ++ fs),
        r,
        c,
        shutdown_error-Reports error_text (es ++ fs),
        ap
              (λ x. (
                (clean_all x.0 x.1 a.cleanup).0,
                shutdown_error error_text (clean_all x.0 x.1 a.cleanup).1,
              ))
              q
            ∙ ap (λ x. (x.0, shutdown_error error_text x.1)) k,
      )
