-- ===== src/Errors/Tests.antt =====
-- The error functions on a concrete error.
use ddd_qce.Common.{[]}
use ddd_qce.Errors.{Err, wrap, err_not_found}

abbrev not_found_wrapped : Err
not_found_wrapped = wrap "job %s: %w" [] err_not_found
