-- ===== src/App.antt =====
-- app/app.go and app/lifecycle.go: the application container. Its lifecycles, cleanups, handlers and
-- buses act on a state `S`, parameters, and so does the question whether the context of Close is
-- done; the text of an error is a parameter.
pub mod Closing
mod Tests
use ddd_qce.Common.{
  String, Bool, true, false, Option, none, some, List, [], ◌∷◌, ◌++◌, map, if◌then◌else◌,
}
use ddd_qce.Errors.{Err, Result, ok, error, Arg, str, text, wrap}

-- A Shutdown or a cleanup function.
abbrev pub Action : Type 0 → Type 0
Action S = S → S × Option Err

-- The fields of App; the buses and the chain are none until they are set.
pub record App (S CB QB EB Ch Backend Config : Type 0) : Type 0 where
  pub cmd_bus : Option CB
  pub query_bus : Option QB
  pub event_bus : Option EB
  pub chain : Option Ch
  pub backend : Option Backend
  pub config : Config
  pub lifecycles : List (Action S)
  pub cleanup : List (Action S)

-- errs after one more call.
abbrev pub add_error : List Err → Option Err → List Err
add_error errs none = errs
add_error errs (some e) = errs ++ e ∷ []

module _ {S : Type 0} (is_done : S → Bool) where
  -- The first loop of Close, which stops after the lifecycle that finds the context done.
  unfoldable pub shutdown_all : S → List Err → List (Action S) → S × List Err
  shutdown_all s errs [] = (s, errs)
  shutdown_all s errs (l ∷ ls) =
      let (s', e) = l s in
      let rest = shutdown_all s' (add_error errs e) ls in
      if is_done s' then (s', add_error errs e) else rest

-- The second loop.
unfoldable pub clean_all : {S : Type 0} → S → List Err → List (Action S) → S × List Err
clean_all s errs [] = (s, errs)
clean_all s errs (f ∷ fs) = let (s', e) = f s in clean_all s' (add_error errs e) fs

unfoldable pub shutdown_error : (Err → String) → List Err → Option Err
shutdown_error error_text [] = none
shutdown_error error_text (e ∷ es) =
    some (text "shutdown errors: %v" (map (λ x. str (error_text x)) (e ∷ es)))

module _ {S CB QB EB Ch Backend Config : Type 0} where
  unfoldable pub close :
      (S → Bool) → (Err → String) → App S CB QB EB Ch Backend Config → S → S × Option Err
  unfolding shutdown_all clean_all shutdown_error
  close is_done error_text a s =
      let (s1, errs1) = shutdown_all is_done s [] a.lifecycles in
      let (s2, errs2) = clean_all s1 errs1 a.cleanup in (s2, shutdown_error error_text errs2)

  unfoldable pub register_lifecycle :
      App S CB QB EB Ch Backend Config → Action S → App S CB QB EB Ch Backend Config
  register_lifecycle a l = record a { lifecycles = a.lifecycles ++ l ∷ [] }

  -- An AppOption changes the app; the loop of NewApp stops at the first error.
  unfoldable pub apply_options :
      App S CB QB EB Ch Backend Config
      → List (App S CB QB EB Ch Backend Config → Result (App S CB QB EB Ch Backend Config))
      → Result (App S CB QB EB Ch Backend Config)
  apply_options a [] = ok a
  apply_options a (opt ∷ opts) = elim (opt a) [
    | error e ↦ error (wrap "app option failed: %w" [] e)
    | ok a' ↦ apply_options a' opts
  ]

  unfoldable pub new_app :
      Config
      → List (App S CB QB EB Ch Backend Config → Result (App S CB QB EB Ch Backend Config))
      → Result (App S CB QB EB Ch Backend Config)
  unfolding apply_options
  new_app default_config opts =
      apply_options
        (record {
          cmd_bus = none;
          query_bus = none;
          event_bus = none;
          chain = none;
          backend = none;
          config = default_config;
          lifecycles = [];
          cleanup = [];
        })
        opts

  unfoldable pub with_backend :
      Backend → App S CB QB EB Ch Backend Config → Result (App S CB QB EB Ch Backend Config)
  with_backend backend a = ok (record a { backend = some backend })

  unfoldable pub with_buses :
      CB → QB → EB → App S CB QB EB Ch Backend Config → Result (App S CB QB EB Ch Backend Config)
  with_buses cmd query event a =
      ok (record a { cmd_bus = some cmd; query_bus = some query; event_bus = some event })
