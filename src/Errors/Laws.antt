-- ===== src/Errors/Laws.antt =====
-- Which domain codes an error tree matches: error/domain_error.go.
use ddd_qce.Common.{String, ◌≡◌, ◌⊎◌, refl, inl, inr, true, ◌||◌, Bool-cases, arith, str_eq_refl}
use ddd_qce.Errors.{
  Result, ok, error, Err, Errs, domain, domain_with_cause, optimistic_lock, store_error, text, wrap,
  joined, multi, nil, cons, concurrency_code, errors_is, any_is, is_domain_error, any_domain, join,
}

mutual
  unfolding errors_is is_domain_error

  code-errors_is : (e : Err) → is_domain_error e ≡ true → (c : String) × (errors_is e c ≡ true)
  code-errors_is (domain c m) h = (c, str_eq_refl c)
  code-errors_is (domain_with_cause c m cause) h = (c, ground (arith, str_eq_refl c))
  code-errors_is (optimistic_lock id v b) h = (concurrency_code, str_eq_refl concurrency_code)
  code-errors_is (store_error id op e) h = code-errors_is e h
  code-errors_is (text s args) h = cc
  code-errors_is (wrap s args e) h = code-errors_is e h
  code-errors_is (joined es) h = code-any_is es h
  code-errors_is (multi es) h = code-any_is es h

  code-any_is : (es : Errs) → any_domain es ≡ true → (c : String) × (any_is es c ≡ true)
  code-any_is nil h = cc
  code-any_is (cons e es) h = elim (Bool-cases (is_domain_error e)) [
    | inl p ↦ let r = code-errors_is e p in (r.0, ground (arith, r.1))
    | inr q ↦ let r = code-any_is es (ground arith) in (r.0, ground (arith, r.1))
  ]

mutual
  unfolding errors_is is_domain_error

  errors_is-domain : (e : Err) (c : String) → errors_is e c ≡ true → is_domain_error e ≡ true
  errors_is-domain (domain c m) t h = refl
  errors_is-domain (domain_with_cause c m cause) t h = refl
  errors_is-domain (optimistic_lock id v b) t h = refl
  errors_is-domain (store_error id op e) t h = errors_is-domain e t h
  errors_is-domain (text s args) t h = cc
  errors_is-domain (wrap s args e) t h = errors_is-domain e t h
  errors_is-domain (joined es) t h = any_is-domain es t h
  errors_is-domain (multi es) t h = any_is-domain es t h

  any_is-domain : (es : Errs) (c : String) → any_is es c ≡ true → any_domain es ≡ true
  any_is-domain nil t h = cc
  any_is-domain (cons e es) t h = ground (arith, errors_is-domain e t, any_is-domain es t)

-- IsDomainError holds of an error tree exactly when errors.Is finds a DomainError of some code in
-- it: the code is produced from the tree, and any code that matches proves it.
pub is_domain_error-errors_is :
    (e : Err)
    → (is_domain_error e ≡ true → (c : String) × (errors_is e c ≡ true))
      × ((c : String) → errors_is e c ≡ true → is_domain_error e ≡ true)
is_domain_error-errors_is e = (code-errors_is e, errors_is-domain e)

-- Joining a second error keeps every code that the first one matches, and matches nothing that
-- neither of them does.
pub errors_is-join :
    (e f : Err) (c : String) → errors_is (join e f) c ≡ (errors_is e c || errors_is f c)
unfolding errors_is join
errors_is-join e f c = ground arith

-- To split on a result and keep the equation.
pub Result-cases :
    {A : Type 0} (r : Result A) → ((e : Err) × (r ≡ error e)) ⊎ ((a : A) × (r ≡ ok a))
Result-cases (error e) = inl (e, refl)
Result-cases (ok a) = inr (a, refl)
