-- ===== src/Errors.antt =====
-- error/errors.go, error/domain_error.go, error/multi_error.go, infra/repository/error.go,
-- the StoreError of job/core/job.go and the `errors` functions that the library relies on.
-- A Go `error` value is a tree: what `Unwrap` returns is the subtree. `text` and `wrap` are
-- `fmt.Errorf` without and with %w, over the format and its other arguments.
pub mod Laws
mod Tests
use ddd_qce.Common.{String, Bool, true, false, ◌||◌, List, [], ◌∷◌, str_eq}
use ddd_qce.Common.Int.{ℤ}

-- An argument of a format.
pub data Arg : Type 0 where
  str : String → Arg
  num : ℤ → Arg

mutual
  pub data Err : Type 0 where
    domain : String → String → Err
    domain_with_cause : String → String → Err → Err
    optimistic_lock : String → ℤ → Bool → Err
    store_error : String → String → Err → Err
    text : String → List Arg → Err
    wrap : String → List Arg → Err → Err
    joined : Errs → Err
    multi : Errs → Err

  pub data Errs : Type 0 where
    nil : Errs
    cons : Err → Errs → Errs

-- What a call that returns a value and an `error` returns.
pub data Result {ℓ} (A : Type ℓ) : Type ℓ where
  ok : A → Result A
  error : Err → Result A

-- A call that may panic.
pub data Run {ℓ} (A : Type ℓ) : Type ℓ where
  returns : A → Run A
  panics : Run A

unfoldable pub new_domain_error : String → String → Err
new_domain_error code msg = domain code msg

abbrev pub err_not_found : Err
err_not_found = domain "NOT_FOUND" "resource not found"

abbrev pub err_already_exists : Err
err_already_exists = domain "ALREADY_EXISTS" "resource already exists"

abbrev pub err_concurrency : Err
err_concurrency = domain "CONCURRENCY" "concurrent modification conflict"

abbrev pub not_found_code : String
not_found_code = "NOT_FOUND"

abbrev pub already_exists_code : String
already_exists_code = "ALREADY_EXISTS"

abbrev pub concurrency_code : String
concurrency_code = "CONCURRENCY"

-- `NewMultiError(errs...)`.
unfoldable pub to_errs : List Err → Errs
to_errs [] = nil
to_errs (e ∷ es) = cons e (to_errs es)

unfoldable pub new_multi_error : List Err → Err
unfolding to_errs
new_multi_error es = multi (to_errs es)

-- `errors.Join` of two errors that are not nil.
unfoldable pub join : Err → Err → Err
join e f = joined (cons e (cons f nil))

-- `(*DomainError).Is` against a DomainError of the given code.
unfoldable pub domain_is : String → String → Bool
domain_is code target = str_eq code target

-- `errors.Is(err, target)` for a target that is a DomainError of code `target`, and
-- `errors.As(err, &domainError)`, which is IsDomainError.
unfoldable mutual
  unfolding domain_is

  pub errors_is : Err → String → Bool
  errors_is (domain c m) target = domain_is c target
  errors_is (domain_with_cause c m cause) target = domain_is c target || errors_is cause target
  errors_is (optimistic_lock id v b) target = domain_is concurrency_code target
  errors_is (store_error id op e) target = errors_is e target
  errors_is (text s args) target = false
  errors_is (wrap s args e) target = errors_is e target
  errors_is (joined es) target = any_is es target
  errors_is (multi es) target = any_is es target

  pub any_is : Errs → String → Bool
  any_is nil target = false
  any_is (cons e es) target = errors_is e target || any_is es target

unfoldable mutual
  pub is_domain_error : Err → Bool
  is_domain_error (domain c m) = true
  is_domain_error (domain_with_cause c m cause) = true
  is_domain_error (optimistic_lock id v b) = true
  is_domain_error (store_error id op e) = is_domain_error e
  is_domain_error (text s args) = false
  is_domain_error (wrap s args e) = is_domain_error e
  is_domain_error (joined es) = any_domain es
  is_domain_error (multi es) = any_domain es

  pub any_domain : Errs → Bool
  any_domain nil = false
  any_domain (cons e es) = is_domain_error e || any_domain es
