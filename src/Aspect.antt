-- ===== src/Aspect.antt =====
-- aspect/chain.go: the aspects around the execution of a message, and their registration.
-- The aspects, the handlers and the clock are outside: they act on a state `S` that is passed
-- along. An `any` that may be nil is an Option. `sort.Slice` is a parameter.
pub mod Onion
pub mod Registry
pub mod Transaction
mod Tests
use ddd_qce.Common.{
  ℕ, ◌-◌, String, Bool, true, false, ◌||◌, Option, none, some, List, [], ◌∷◌, ◌++◌, if◌then◌else◌,
  str_eq,
}
use ddd_qce.Common.Int.{ℤ, ltb_ℤ}
use ddd_qce.Errors.{Err, Result, ok, error, join}

module _ (S Ctx Msg Res : Type 0) where
  pub record CommandAspect : Type 0 where
    pub name : String
    pub order : ℤ
    pub before_command : S → Ctx → Msg → S × Result Ctx
    pub after_command : S → Ctx → Msg → Option Res → Option Err → ℕ → S × Option Err

  pub record QueryAspect : Type 0 where
    pub name : String
    pub order : ℤ
    pub before_query : S → Ctx → Msg → S × Result Ctx
    pub after_query : S → Ctx → Msg → Option Res → Option Err → ℕ → S × Option Err

  pub record EventAspect : Type 0 where
    pub name : String
    pub order : ℤ
    pub before_publish : S → Ctx → Msg → S × Result Ctx
    pub after_publish : S → Ctx → Msg → Option Err → ℕ → S × Option Err

  pub record AspectChain : Type 0 where
    pub query_aspects : List QueryAspect
    pub command_aspects : List CommandAspect
    pub event_aspects : List EventAspect

  -- A value with the aspect interfaces that it implements.
  pub record AnyAspect : Type 0 where
    pub as_command : Option CommandAspect
    pub as_query : Option QueryAspect
    pub as_event : Option EventAspect

-- The error after an `After` hook: `errors.Join` if both failed.
unfoldable pub after_error : Option Err → Option Err → Option Err
after_error err none = err
after_error none (some e) = some e
after_error (some e) (some e') = some (join e e')

module _ {S Ctx Msg Res : Type 0} where
  module _ (clock : S → ℕ) where
    unfoldable pub run_query_aspects :
        S
        → Ctx
        → Msg
        → (S → Ctx → S × Option Res × Option Err)
        → List (QueryAspect S Ctx Msg Res)
        → S × Option Res × Option Err
    unfolding after_error
    run_query_aspects s ctx query next [] = next s ctx
    run_query_aspects s ctx query next (a ∷ aspects) =
        let (s1, r) = a.before_query s ctx query in
        elim r [
          | error e ↦ (s1, none, some e)
          | ok new_ctx ↦
              let (s2, result, err) = run_query_aspects s1 new_ctx query next aspects in
              let (s3, e) = a.after_query s2 new_ctx query result err (clock s2 - clock s1) in
              (s3, result, after_error err e)
        ]

    unfoldable pub run_command_aspects :
        S
        → Ctx
        → Msg
        → (S → Ctx → S × Option Res × Option Err)
        → List (CommandAspect S Ctx Msg Res)
        → S × Option Res × Option Err
    unfolding after_error
    run_command_aspects s ctx cmd next [] = next s ctx
    run_command_aspects s ctx cmd next (a ∷ aspects) =
        let (s1, r) = a.before_command s ctx cmd in
        elim r [
          | error e ↦ (s1, none, some e)
          | ok new_ctx ↦
              let (s2, result, err) = run_command_aspects s1 new_ctx cmd next aspects in
              let (s3, e) = a.after_command s2 new_ctx cmd result err (clock s2 - clock s1) in
              (s3, result, after_error err e)
        ]

    unfoldable pub run_event_aspects :
        S
        → Ctx
        → Msg
        → (S → Ctx → S × Option Err)
        → List (EventAspect S Ctx Msg Res)
        → S × Option Err
    unfolding after_error
    run_event_aspects s ctx event next [] = next s ctx
    run_event_aspects s ctx event next (a ∷ aspects) =
        let (s1, r) = a.before_publish s ctx event in
        elim r [
          | error e ↦ (s1, some e)
          | ok new_ctx ↦
              let (s2, err) = run_event_aspects s1 new_ctx event next aspects in
              let (s3, e) = a.after_publish s2 new_ctx event err (clock s2 - clock s1) in
              (s3, after_error err e)
        ]

    unfoldable pub execute_with_query_aspects :
        AspectChain S Ctx Msg Res
        → S
        → Ctx
        → Msg
        → (S → Ctx → S × Option Res × Option Err)
        → S × Option Res × Option Err
    unfolding run_query_aspects
    execute_with_query_aspects c s ctx query next =
        run_query_aspects s ctx query next c.query_aspects

    unfoldable pub execute_with_command_aspects :
        AspectChain S Ctx Msg Res
        → S
        → Ctx
        → Msg
        → (S → Ctx → S × Option Res × Option Err)
        → S × Option Res × Option Err
    unfolding run_command_aspects
    execute_with_command_aspects c s ctx cmd next =
        run_command_aspects s ctx cmd next c.command_aspects

    unfoldable pub execute_with_event_aspects :
        AspectChain S Ctx Msg Res → S → Ctx → Msg → (S → Ctx → S × Option Err) → S × Option Err
    unfolding run_event_aspects
    execute_with_event_aspects c s ctx event next =
        run_event_aspects s ctx event next c.event_aspects

-- One loop of HasAspect over the aspects of one list.
unfoldable pub any_named : List String → String → Bool
any_named [] name = false
any_named (n ∷ ns) name = if str_eq n name then true else any_named ns name

-- One loop of RegisteredNames: `names` is what is collected, and also what `seen` holds.
unfoldable pub collect_names : List String → List String → List String
unfolding any_named
collect_names names [] = names
collect_names names (n ∷ ns) =
    collect_names (if any_named names n then names else names ++ n ∷ []) ns

module _ {S Ctx Msg Res : Type 0} where
  unfoldable pub command_names : List (CommandAspect S Ctx Msg Res) → List String
  command_names [] = []
  command_names (a ∷ rest) = a.name ∷ command_names rest

  unfoldable pub query_names : List (QueryAspect S Ctx Msg Res) → List String
  query_names [] = []
  query_names (a ∷ rest) = a.name ∷ query_names rest

  unfoldable pub event_names : List (EventAspect S Ctx Msg Res) → List String
  event_names [] = []
  event_names (a ∷ rest) = a.name ∷ event_names rest

  unfoldable pub has_aspect : AspectChain S Ctx Msg Res → String → Bool
  unfolding any_named
  has_aspect c name =
      any_named (command_names c.command_aspects) name
      || any_named (query_names c.query_aspects) name
      || any_named (event_names c.event_aspects) name

  unfoldable pub registered_names : AspectChain S Ctx Msg Res → List String
  unfolding collect_names
  registered_names c =
      collect_names
        (collect_names (collect_names [] (command_names c.command_aspects))
          (query_names c.query_aspects))
        (event_names c.event_aspects)

  unfoldable pub register_command_aspect :
      ((CommandAspect S Ctx Msg Res → CommandAspect S Ctx Msg Res → Bool)
        → List (CommandAspect S Ctx Msg Res)
        → List (CommandAspect S Ctx Msg Res))
      → AspectChain S Ctx Msg Res
      → CommandAspect S Ctx Msg Res
      → AspectChain S Ctx Msg Res
  register_command_aspect sort_slice c a = record c {
    command_aspects = sort_slice (λ x y. ltb_ℤ x.order y.order) (c.command_aspects ++ a ∷ []);
  }

  unfoldable pub register_query_aspect :
      ((QueryAspect S Ctx Msg Res → QueryAspect S Ctx Msg Res → Bool)
        → List (QueryAspect S Ctx Msg Res)
        → List (QueryAspect S Ctx Msg Res))
      → AspectChain S Ctx Msg Res
      → QueryAspect S Ctx Msg Res
      → AspectChain S Ctx Msg Res
  register_query_aspect sort_slice c a = record c {
    query_aspects = sort_slice (λ x y. ltb_ℤ x.order y.order) (c.query_aspects ++ a ∷ []);
  }

  unfoldable pub register_event_aspect :
      ((EventAspect S Ctx Msg Res → EventAspect S Ctx Msg Res → Bool)
        → List (EventAspect S Ctx Msg Res)
        → List (EventAspect S Ctx Msg Res))
      → AspectChain S Ctx Msg Res
      → EventAspect S Ctx Msg Res
      → AspectChain S Ctx Msg Res
  register_event_aspect sort_slice c a = record c {
    event_aspects = sort_slice (λ x y. ltb_ℤ x.order y.order) (c.event_aspects ++ a ∷ []);
  }

  -- RegisterAspect, over the three registrations.
  unfoldable pub register_aspect :
      (AspectChain S Ctx Msg Res → CommandAspect S Ctx Msg Res → AspectChain S Ctx Msg Res)
      → (AspectChain S Ctx Msg Res → QueryAspect S Ctx Msg Res → AspectChain S Ctx Msg Res)
      → (AspectChain S Ctx Msg Res → EventAspect S Ctx Msg Res → AspectChain S Ctx Msg Res)
      → AspectChain S Ctx Msg Res
      → AnyAspect S Ctx Msg Res
      → AspectChain S Ctx Msg Res
  register_aspect command query event c a =
      let c1 : AspectChain S Ctx Msg Res = elim a.as_command [
        | none ↦ c
        | some ca ↦ command c ca
      ] in
      let c2 : AspectChain S Ctx Msg Res = elim a.as_query [ none ↦ c1 | some qa ↦ query c1 qa ] in
      elim a.as_event [ none ↦ c2 | some ea ↦ event c2 ea ]
