-- ===== src/Aspect/Onion.antt =====
-- The order in which aspect/chain.go runs the hooks, and what becomes of their errors.
use ddd_qce.Common.{
  ℕ, ◌-◌, ◌≡◌, refl, ap, ◌∙◌, String, true, Option, none, some, List, [], ◌∷◌, ◌++◌, append_assoc,
  arith, All, inl, inr,
}
use ddd_qce.Errors.Laws.{Result-cases}
use ddd_qce.Errors.{Err, ok, error, join, errors_is}
use ddd_qce.Aspect.{CommandAspect, after_error, run_command_aspects}

-- What a run does, hook by hook.
pub data Step : Type 0 where
  entered refused left : String → Step
  handled : Step

-- The runs of aspects around a handler: each one that is entered is left, in the opposite order,
-- and the first that refuses ends the way in.
pub data Onion : List String → List Step → Type 0 where
  core : Onion [] (handled ∷ [])
  stopped : {n : String} {ns : List String} → Onion (n ∷ ns) (refused n ∷ [])
  around :
      {n : String} {ns : List String} {steps : List Step}
      → Onion ns steps
      → Onion (n ∷ ns) (entered n ∷ (steps ++ left n ∷ []))

after_error-keeps :
    (code : String) (e : Err) (o : Option Err)
    → errors_is e code ≡ true
    → (x : Err) × (after_error (some e) o ≡ some x) × (errors_is x code ≡ true)
unfolding after_error errors_is join
after_error-keeps code e none h = (e, refl, h)
after_error-keeps code e (some e') h = (join e e', refl, ground arith)

module _ {S Ctx Msg Res : Type 0} where
  -- An aspect that also writes down its hooks.
  abbrev pub traced : CommandAspect S Ctx Msg Res → CommandAspect (S × List Step) Ctx Msg Res
  traced a = record {
    name = a.name;
    order = a.order;
    before_command = λ s ctx cmd.
        let (s', r) = a.before_command s.0 ctx cmd in
        (
          (s', elim r [ ok c ↦ s.1 ++ entered a.name ∷ [] | error e ↦ s.1 ++ refused a.name ∷ [] ]),
          r,
        );
    after_command = λ s ctx cmd result err d.
        let (s', e) = a.after_command s.0 ctx cmd result err d in
        ((s', s.1 ++ left a.name ∷ []), e);
  }

  abbrev pub all_traced :
      List (CommandAspect S Ctx Msg Res) → List (CommandAspect (S × List Step) Ctx Msg Res)
  all_traced [] = []
  all_traced (a ∷ rest) = traced a ∷ all_traced rest

  abbrev pub names : List (CommandAspect S Ctx Msg Res) → List String
  names [] = []
  names (a ∷ rest) = a.name ∷ names rest

  module _ (clock : S → ℕ) (cmd : Msg) (next : S → Ctx → S × Option Res × Option Err) where
    abbrev pub traced_next : S × List Step → Ctx → (S × List Step) × Option Res × Option Err
    traced_next s ctx =
        let (s', result, err) = next s.0 ctx in ((s', s.1 ++ handled ∷ []), result, err)

    abbrev pub run : S → Ctx → List (CommandAspect S Ctx Msg Res) → S × Option Res × Option Err
    run s ctx aspects = run_command_aspects clock s ctx cmd next aspects

    abbrev pub run_traced :
        S × List Step
        → Ctx
        → List (CommandAspect S Ctx Msg Res)
        → (S × List Step) × Option Res × Option Err
    run_traced s ctx aspects =
        run_command_aspects (λ t. clock t.0) s ctx cmd traced_next (all_traced aspects)

    -- The traced run does what the run does.
    abbrev pub Agrees :
        (S × List Step) × Option Res × Option Err → S × Option Res × Option Err → Type 0
    Agrees r t = (r.0.0 ≡ t.0) × (r.1 ≡ t.1) × (r.2 ≡ t.2)

    run_traced-nil :
        (s : S × List Step) (ctx : Ctx)
        → Agrees (run_traced s ctx []) (run s.0 ctx [])
          × ((steps : List Step) × Onion [] steps × ((run_traced s ctx []).0.1 ≡ s.1 ++ steps))
    unfolding run_command_aspects
    run_traced-nil s ctx = ((refl, refl, refl), (handled ∷ [], core, refl))

    run_traced-refused :
        (s : S × List Step) (ctx : Ctx) (a : CommandAspect S Ctx Msg Res)
        (rest : List (CommandAspect S Ctx Msg Res)) (e : Err)
        → (a.before_command s.0 ctx cmd).1 ≡ error e
        → Agrees (run_traced s ctx (a ∷ rest)) (run s.0 ctx (a ∷ rest))
          × ((run_traced s ctx (a ∷ rest)).0.1 ≡ s.1 ++ refused a.name ∷ [])
    unfolding run_command_aspects
    run_traced-refused s ctx a rest e h = ground arith

    abbrev inside : S × List Step → Ctx → CommandAspect S Ctx Msg Res → S × List Step
    inside s ctx a = ((a.before_command s.0 ctx cmd).0, s.1 ++ entered a.name ∷ [])

    run_traced-entered :
        (s : S × List Step) (ctx : Ctx) (a : CommandAspect S Ctx Msg Res)
        (rest : List (CommandAspect S Ctx Msg Res)) (c : Ctx)
        → (a.before_command s.0 ctx cmd).1 ≡ ok c
        → Agrees (run_traced (inside s ctx a) c rest) (run (inside s ctx a).0 c rest)
        → Agrees (run_traced s ctx (a ∷ rest)) (run s.0 ctx (a ∷ rest))
          × ((run_traced s ctx (a ∷ rest)).0.1
              ≡ (run_traced (inside s ctx a) c rest).0.1 ++ left a.name ∷ [])
    unfolding run_command_aspects
    run_traced-entered s ctx a rest c h ih = ground arith

    -- Whatever the aspects and the handler do, the hooks of a command run in the order of an onion:
    -- an aspect that is entered is left after everything within it, also where the handler or an
    -- inner aspect fails, the handler runs only if nobody refuses, and nothing runs after a
    -- refusal but the hooks of the aspects that were entered. To see this each aspect and the
    -- handler write down what they do, and the run does otherwise what it does without.
    pub run_command_aspects-Onion :
        (s : S × List Step) (ctx : Ctx) (aspects : List (CommandAspect S Ctx Msg Res))
        → Agrees (run_traced s ctx aspects) (run s.0 ctx aspects)
          × ((steps : List Step) × Onion (names aspects) steps
              × ((run_traced s ctx aspects).0.1 ≡ s.1 ++ steps))
    run_command_aspects-Onion s ctx [] = run_traced-nil s ctx
    run_command_aspects-Onion s ctx (a ∷ rest) =
        elim (Result-cases (a.before_command s.0 ctx cmd).1) [
          | inl (e, h) ↦
              let r = run_traced-refused s ctx a rest e h in
              (r.0, (refused a.name ∷ [], stopped, r.1))
          | inr (c, h) ↦
              let (same, (steps, onion, eq)) = run_command_aspects-Onion (inside s ctx a) c rest in
              let r = run_traced-entered s ctx a rest c h same in
              (
                r.0,
                (
                  entered a.name ∷ (steps ++ left a.name ∷ []),
                  around onion,
                  r.1
                      ∙ ap (λ l. l ++ left a.name ∷ []) eq
                      ∙ ap (λ l. l ++ left a.name ∷ [])
                          (append_assoc s.1 (entered a.name ∷ []) steps)
                      ∙ append_assoc s.1 (entered a.name ∷ steps) (left a.name ∷ []),
                ),
              )
        ]

    -- No aspect refuses the command.
    abbrev pub AllPass : List (CommandAspect S Ctx Msg Res) → Type 0
    AllPass = All (λ a. (s : S) (ctx : Ctx) → (c : Ctx) × ((a.before_command s ctx cmd).1 ≡ ok c))

    abbrev pub FailsWith : String → S × Option Res × Option Err → Type 0
    FailsWith code r = (e : Err) × (r.2 ≡ some e) × (errors_is e code ≡ true)

    -- An error of the handler gets through: if nobody refuses the command and the handler fails
    -- with an error of some code, then what the chain returns is an error of that code, whatever
    -- the hooks on the way out return.
    pub run_command_aspects-FailsWith :
        (code : String) (aspects : List (CommandAspect S Ctx Msg Res)) (s : S) (ctx : Ctx)
        → AllPass aspects
        → ((t : S) (c : Ctx) → FailsWith code (next t c))
        → FailsWith code (run_command_aspects clock s ctx cmd next aspects)
    unfolding run_command_aspects
    run_command_aspects-FailsWith code [] s ctx p f = f s ctx
    run_command_aspects-FailsWith code (a ∷ rest) s ctx p f =
        let (c, h) = p.0 s ctx in
        let s1 = (a.before_command s ctx cmd).0 in
        let r = run s1 c rest in
        let (e, q, k) = run_command_aspects-FailsWith code rest s1 c p.1 f in
        let o = (a.after_command r.0 c cmd r.1 r.2 (clock r.0 - clock s1)).1 in
        let (x, eq, is) = after_error-keeps code e o k in (x, ground arith, is)
