-- ===== src/Aspect/Registry.antt =====
-- The registration of aspects in aspect/chain.go, with HasAspect and RegisteredNames.
use ddd_qce.Common.{
  ◌≡◌, refl, sym, ap, ◌∙◌, String, Bool, true, false, ◌||◌, List, [], ◌∷◌, ◌++◌, str_eq, str_eq_iff,
  arith, All, Bool-cases, inl, inr,
}
use mathlib.Core.Bool.{Bool-set}
use mathlib.Core.Logic.{∥∥₁_elim}
use mathlib.Core.List.{Perm, Permᴰ}
use ddd_qce.Common.Int.{ltb_ℤ}
use ddd_qce.Aspect.{
  CommandAspect, AspectChain, any_named, collect_names, command_names, query_names, event_names,
  has_aspect, registered_names, register_command_aspect,
}

-- No name stands twice.
abbrev pub Distinct : List String → Type 0
Distinct [] = Unit {0}
Distinct (n ∷ ns) = (any_named ns n ≡ false) × Distinct ns

any_named-append :
    (xs ys : List String) (n : String) → any_named (xs ++ ys) n ≡ (any_named xs n || any_named ys n)
unfolding any_named
any_named-append [] ys n = refl
any_named-append (x ∷ xs) ys n = ground (arith, any_named-append xs ys n)

any_named-one : (x n : String) → any_named (x ∷ []) n ≡ str_eq x n
unfolding any_named
any_named-one x n = ground arith

Distinct-append_one :
    (xs : List String) (n : String) → Distinct xs → any_named xs n ≡ false → Distinct (xs ++ n ∷ [])
unfolding any_named
Distinct-append_one [] n d h = (refl, tt)
Distinct-append_one (x ∷ xs) n d h = (
  any_named-append xs (n ∷ []) x ∙ ground (arith, d.0, str_eq_iff x n, str_eq_iff n x),
  Distinct-append_one xs n d.1 (ground arith),
)

collect_names-Distinct :
    (names ns : List String) → Distinct names → Distinct (collect_names names ns)
unfolding collect_names
collect_names-Distinct names [] d = d
collect_names-Distinct names (n ∷ ns) d = elim (Bool-cases (any_named names n)) [
  | inl e ↦ rw (e) (collect_names-Distinct names ns d)
  | inr e ↦ rw (e) (collect_names-Distinct (names ++ n ∷ []) ns (Distinct-append_one names n d e))
]

any_named-step :
    (names ns : List String) (n x : String)
    → any_named names n ≡ true
    → (any_named names x || any_named ns x) ≡ (any_named names x || any_named (n ∷ ns) x)
unfolding any_named
any_named-step names ns n x h = elim (Bool-cases (str_eq n x)) [
  | inl e ↦
      rw (e) (ap (λ b. b || any_named ns x) (named x e) ∙ sym (ap (λ b. b || true) (named x e)))
  | inr e ↦ rw (e) refl
]
  where
    named : (y : String) → str_eq n y ≡ true → any_named names y ≡ true
    named y q = ap (any_named names) (sym ((str_eq_iff n y).0 q)) ∙ h

any_named-collect_names :
    (names ns : List String) (x : String)
    → any_named (collect_names names ns) x ≡ (any_named names x || any_named ns x)
unfolding collect_names any_named
any_named-collect_names names [] x = ground arith
any_named-collect_names names (n ∷ ns) x = elim (Bool-cases (any_named names n)) [
  | inl e ↦ rw (e) (any_named-collect_names names ns x ∙ any_named-step names ns n x e)
  | inr e ↦ rw (e) (
      any_named-collect_names (names ++ n ∷ []) ns x
      ∙ ground (arith, any_named-append names (n ∷ []) x))
]

any_named-Permᴰ : {xs ys : List String} (n : String) → Permᴰ xs ys → any_named xs n ≡ any_named ys n
unfolding any_named
any_named-Permᴰ n Permᴰ.nil = refl
any_named-Permᴰ n (Permᴰ.cons e d) = ground (arith, any_named-Permᴰ n d)
any_named-Permᴰ n (Permᴰ.swap e f) = ground arith
any_named-Permᴰ n (Permᴰ.trans d e) = any_named-Permᴰ n d ∙ any_named-Permᴰ n e

abbrev pub Test : Type 0 → Type 0
Test A = A → A → Bool

-- What sort.Slice asks of its test.
abbrev pub IsStrictWeak : {A : Type 0} → Test A → Type 0
IsStrictWeak {A} less =
    ((a b : A) → less a b ≡ true → less b a ≡ false)
    × ((a b c : A) → less b a ≡ false → less c b ≡ false → less c a ≡ false)

-- Nothing is less than what stands before it.
abbrev pub Ascending : {A : Type 0} → Test A → List A → Type 0
Ascending less [] = Unit {0}
Ascending less (a ∷ rest) = All (λ b. less b a ≡ false) rest × Ascending less rest

module _ {S Ctx Msg Res : Type 0} where
  -- RegisteredNames returns no name twice, and exactly the names that HasAspect finds.
  pub registered_names-Distinct :
      (c : AspectChain S Ctx Msg Res)
      → Distinct (registered_names c)
        × ((name : String) → any_named (registered_names c) name ≡ has_aspect c name)
  unfolding registered_names has_aspect
  registered_names-Distinct c =
      let cs = command_names c.command_aspects in
      let qs = query_names c.query_aspects in
      let es = event_names c.event_aspects in
      let c1 = collect_names [] cs in
      let c2 = collect_names c1 qs in
      (
        collect_names-Distinct c2 es
            (collect_names-Distinct c1 qs (collect_names-Distinct [] cs tt)),
        λ name.
            any_named-collect_names c2 es name
            ∙ ap (λ b. b || any_named es name) (any_named-collect_names c1 qs name)
            ∙ ap (λ b. (b || any_named qs name) || any_named es name)
                (any_named-collect_names [] cs name)
            ∙ ground (arith, any_named),
      )

  names-Permᴰ :
      {xs ys : List (CommandAspect S Ctx Msg Res)}
      → Permᴰ xs ys
      → Permᴰ (command_names xs) (command_names ys)
  unfolding command_names
  names-Permᴰ Permᴰ.nil = Permᴰ.nil
  names-Permᴰ (Permᴰ.cons e d) = Permᴰ.cons (ap (λ a. a.name) e) (names-Permᴰ d)
  names-Permᴰ (Permᴰ.swap e f) = Permᴰ.swap (ap (λ a. a.name) e) (ap (λ a. a.name) f)
  names-Permᴰ (Permᴰ.trans d e) = Permᴰ.trans (names-Permᴰ d) (names-Permᴰ e)

  command_names-append_one :
      (xs : List (CommandAspect S Ctx Msg Res)) (a : CommandAspect S Ctx Msg Res)
      → command_names (xs ++ a ∷ []) ≡ command_names xs ++ a.name ∷ []
  unfolding command_names
  command_names-append_one [] a = refl
  command_names-append_one (x ∷ xs) a = ap (◌∷◌ x.name) (command_names-append_one xs a)

  abbrev pub by_order : Test (CommandAspect S Ctx Msg Res)
  by_order x y = ltb_ℤ x.order y.order

  by_order-IsStrictWeak : IsStrictWeak by_order
  by_order-IsStrictWeak = (λ a b h. ground arith, λ a b c h k. ground arith)

  module _
      (sort_slice : Test (CommandAspect S Ctx Msg Res)
        → List (CommandAspect S Ctx Msg Res)
        → List (CommandAspect S Ctx Msg Res))
      (sort_slice-Perm : (less : Test (CommandAspect S Ctx Msg Res))
          (xs : List (CommandAspect S Ctx Msg Res))
        → Perm (sort_slice less xs) xs)
      (sort_slice-Ascending : (less : Test (CommandAspect S Ctx Msg Res))
          (xs : List (CommandAspect S Ctx Msg Res))
        → IsStrictWeak less
        → Ascending less (sort_slice less xs)) where
    -- If `sort.Slice` sorts by a strict weak order, then after the registration of a command aspect the command aspects
    -- are the old ones and the new one, in ascending order of Order, the other lists are as they were, and
    -- HasAspect finds the new name and what it found before.
    pub register_command_aspect-Ascending :
        (c : AspectChain S Ctx Msg Res) (a : CommandAspect S Ctx Msg Res)
        → let c' = register_command_aspect sort_slice c a in
          Ascending by_order c'.command_aspects
          × Perm c'.command_aspects (c.command_aspects ++ a ∷ [])
          × (c'.query_aspects ≡ c.query_aspects)
          × (c'.event_aspects ≡ c.event_aspects)
          × ((name : String) → has_aspect c' name ≡ (str_eq a.name name || has_aspect c name))
    unfolding register_command_aspect has_aspect
    register_command_aspect-Ascending c a =
        let new = c.command_aspects ++ a ∷ [] in
        let less : Test (CommandAspect S Ctx Msg Res) = λ x y. ltb_ℤ x.order y.order in
        (
          sort_slice-Ascending by_order new by_order-IsStrictWeak,
          sort_slice-Perm less new,
          refl,
          refl,
          λ name.
              let same : any_named (command_names (sort_slice less new)) name
                  ≡ any_named (command_names new) name =
                ∥∥₁_elim (sort_slice-Perm less new) (Bool-set _ _)
                  (λ d. any_named-Permᴰ name (names-Permᴰ d)) in
              let one =
                ap (λ l. any_named l name) (command_names-append_one c.command_aspects a)
                ∙ any_named-append (command_names c.command_aspects) (a.name ∷ []) name in
              ground (arith, same, one, any_named-one a.name name),
        )
