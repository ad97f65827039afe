-- ===== src/Aspect/Tests.antt =====
-- Runs of chains of concrete aspects: the state counts the hooks.
use ddd_qce.Common.{
  ℕ, ◌+◌, ◌≡◌, refl, String, true, false, Option, none, some, List, [], ◌∷◌, ◌++◌, All,
  if◌then◌else◌, Bool-cases, inl, inr,
}
use mathlib.Core.List.{Permᴰ}
use mathlib.Core.List.Permᴰ
use ddd_qce.Common.Int.{pos}
use ddd_qce.Errors.{Err, ok, err_not_found, not_found_code, errors_is}
use ddd_qce.Aspect.{CommandAspect, AspectChain, run_command_aspects}
use ddd_qce.Aspect.Onion.{
  Step, Onion, names, Agrees, run, run_traced, FailsWith, run_command_aspects-Onion,
  run_command_aspects-FailsWith,
}
use ddd_qce.Aspect.Registry.{Test, IsStrictWeak, Ascending}
use ddd_qce.Aspect.Transaction.{
  TransactionManager, no_op_transaction_manager, Brackets, around, transaction_aspect-around,
}

abbrev Nothing : Type 0
Nothing = Unit {0}

-- An aspect that lets everything in and fails on the way out.
abbrev counting : String → ℕ → CommandAspect ℕ Nothing ℕ ℕ
counting name order = record {
  name = name;
  order = pos order;
  before_command = λ s ctx cmd. (s + 1, ok ctx);
  after_command = λ s ctx cmd result err d. (s + 1, some err_not_found);
}

abbrev two_aspects : List (CommandAspect ℕ Nothing ℕ ℕ)
two_aspects = counting "outer" 1 ∷ counting "inner" 2 ∷ []

abbrev not_found : ℕ → Nothing → ℕ × Option ℕ × Option Err
not_found s ctx = (s + 1, none, some err_not_found)

abbrev msg : ℕ
msg = 5

abbrev tick : ℕ → ℕ
tick s = s

run_command_aspects-Onion_example :
    Agrees tick msg not_found
      (run_traced tick msg not_found (0, []) tt two_aspects)
      (run tick msg not_found 0 tt two_aspects)
    × ((steps : List Step) × Onion (names two_aspects) steps
        × ((run_traced tick msg not_found (0, []) tt two_aspects).0.1 ≡ [] ++ steps))
run_command_aspects-Onion_example =
    run_command_aspects-Onion tick msg not_found (0, []) tt two_aspects

not_found-is_code : errors_is err_not_found not_found_code ≡ true
unfolding errors_is
not_found-is_code = refl

run_command_aspects-FailsWith_example :
    FailsWith tick msg not_found not_found_code
      (run_command_aspects tick 0 tt msg not_found two_aspects)
run_command_aspects-FailsWith_example =
    run_command_aspects-FailsWith tick msg not_found not_found_code two_aspects 0 tt
      (λ s ctx. (ctx, refl), (λ s ctx. (ctx, refl), tt))
      (λ t c. (err_not_found, refl, not_found-is_code))

abbrev chain : AspectChain ℕ Nothing ℕ ℕ
chain = record { query_aspects = []; command_aspects = two_aspects; event_aspects = [] }

-- Sorting by insertion.
module _ {A : Type 0} (less : Test A) where
  abbrev insert_sorted : A → List A → List A
  insert_sorted x [] = x ∷ []
  insert_sorted x (y ∷ ys) = if less y x then y ∷ insert_sorted x ys else x ∷ y ∷ ys

  abbrev sorted : List A → List A
  sorted [] = []
  sorted (x ∷ xs) = insert_sorted x (sorted xs)

  insert_sorted-Permᴰ : (x : A) (ys : List A) → Permᴰ (insert_sorted x ys) (x ∷ ys)
  insert_sorted-Permᴰ x [] = Permᴰ.refl (x ∷ [])
  insert_sorted-Permᴰ x (y ∷ ys) = elim (Bool-cases (less y x)) [
    | inl e ↦
        rw (e) (Permᴰ.trans (Permᴰ.cons refl (insert_sorted-Permᴰ x ys)) (Permᴰ.swap refl refl))
    | inr e ↦ rw (e) (Permᴰ.refl (x ∷ y ∷ ys))
  ]

  sorted-Permᴰ : (xs : List A) → Permᴰ (sorted xs) xs
  sorted-Permᴰ [] = Permᴰ.nil
  sorted-Permᴰ (x ∷ xs) =
      Permᴰ.trans (insert_sorted-Permᴰ x (sorted xs)) (Permᴰ.cons refl (sorted-Permᴰ xs))

  insert_sorted-All :
      (z x : A) (ys : List A)
      → less x z ≡ false
      → All (λ b. less b z ≡ false) ys
      → All (λ b. less b z ≡ false) (insert_sorted x ys)
  insert_sorted-All z x [] h a = (h, tt)
  insert_sorted-All z x (y ∷ ys) h a = elim (Bool-cases (less y x)) [
    | inl e ↦ rw (e) (a.0, insert_sorted-All z x ys h a.1)
    | inr e ↦ rw (e) (h, a)
  ]

  below :
      IsStrictWeak less
      → (x y : A) (ys : List A) → less y x ≡ false
      → All (λ b. less b y ≡ false) ys
      → All (λ b. less b x ≡ false) ys
  below w x y [] h a = tt
  below w x y (z ∷ zs) h a = (w.1 x y z h a.0, below w x y zs h a.1)

  insert_sorted-Ascending :
      IsStrictWeak less
      → (x : A) (ys : List A) → Ascending less ys
      → Ascending less (insert_sorted x ys)
  insert_sorted-Ascending w x [] a = (tt, tt)
  insert_sorted-Ascending w x (y ∷ ys) a = elim (Bool-cases (less y x)) [
    | inl e ↦ rw (e) (insert_sorted-All y x ys (w.0 y x e) a.0, insert_sorted-Ascending w x ys a.1)
    | inr e ↦ rw (e) ((e, below w x y ys e a.0), a)
  ]

  sorted-Ascending : IsStrictWeak less → (xs : List A) → Ascending less (sorted xs)
  sorted-Ascending w [] = tt
  sorted-Ascending w (x ∷ xs) = insert_sorted-Ascending w x (sorted xs) (sorted-Ascending w xs)

abbrev sort_slice :
    Test (CommandAspect ℕ Nothing ℕ ℕ)
    → List (CommandAspect ℕ Nothing ℕ ℕ)
    → List (CommandAspect ℕ Nothing ℕ ℕ)
sort_slice less xs = sorted less xs

abbrev no_text : Err → String
no_text e = ""

abbrev manager : TransactionManager ℕ Nothing
manager = no_op_transaction_manager

transaction_aspect-around_example :
    Brackets no_text manager tick msg not_found [] 0 tt
      (around no_text manager tick msg not_found [] 0 tt)
transaction_aspect-around_example =
    transaction_aspect-around no_text manager tick msg not_found [] 0 tt
