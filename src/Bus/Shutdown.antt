-- ===== src/Bus/Shutdown.antt =====
-- Shutdown of the buses (cqrs/impl/memory/bus_helpers.go) against the callers of Execute and
-- Publish.
use ddd_qce.Common.{
  ℕ, ◌+◌, ◌-◌, ◌≤◌, ◌≡◌, refl, true, false, some, List, [], ◌∷◌, arith, Option-cases, inl, inr,
}
use ddd_qce.Bus.{
  BusCounters, drained, CallerStep, check_closed, add_in_flight, done_in_flight, caller_step,
  ShutdownStep, store_closed, wait_ends, return_drained, return_context_error, shutdown_step,
  BusStep, by_caller, by_shutdown, bus_step, bus_run,
}

-- The callers that were let in and are not done.
abbrev pub admitted : BusCounters → ℕ
admitted b = b.checked + b.in_flight

caller_step-drains :
    (b b' : BusCounters) (s : CallerStep)
    → caller_step b s ≡ some b'
    → b.closed ≡ true
    → (b'.closed ≡ true) × (admitted b' ≤ admitted b)
unfolding caller_step
caller_step-drains b b' check_closed h c = ground arith
caller_step-drains b b' add_in_flight h c = ground arith
caller_step-drains b b' done_in_flight h c = ground arith

shutdown_step-drains :
    (b b' : BusCounters) (s : ShutdownStep)
    → shutdown_step b s ≡ some b'
    → b.closed ≡ true
    → (b'.closed ≡ true) × (admitted b' ≤ admitted b)
unfolding shutdown_step
shutdown_step-drains b b' store_closed h c = ground arith
shutdown_step-drains b b' wait_ends h c = ground arith
shutdown_step-drains b b' return_drained h c = ground arith
shutdown_step-drains b b' return_context_error h c = ground arith

bus_step-drains :
    (b b' : BusCounters) (s : BusStep)
    → bus_step b s ≡ some b'
    → b.closed ≡ true
    → (b'.closed ≡ true) × (admitted b' ≤ admitted b)
unfolding bus_step
bus_step-drains b b' (by_caller s) h c = caller_step-drains b b' s h c
bus_step-drains b b' (by_shutdown s) h c = shutdown_step-drains b b' s h c

bus_run-cons :
    (b b' : BusCounters) (s : BusStep) (rest : List BusStep)
    → bus_run b (s ∷ rest) ≡ some b'
    → (b1 : BusCounters) × (bus_step b s ≡ some b1) × (bus_run b1 rest ≡ some b')
unfolding bus_run
bus_run-cons b b' s rest h = elim (Option-cases (bus_step b s)) [
  | inl e ↦ absurd (ground arith)
  | inr (b1, e) ↦ (b1, e, ground arith)
]

-- Once a bus is closed it stays closed and lets nobody in: over any interleaving of steps of
-- callers and of Shutdown, whether Shutdown waits or its context ends it, the number of callers that
-- were let in and are not done never grows.
pub bus_run-drains :
    (steps : List BusStep) (b b' : BusCounters)
    → bus_run b steps ≡ some b'
    → b.closed ≡ true
    → (b'.closed ≡ true) × (admitted b' ≤ admitted b)
unfolding bus_run
bus_run-drains [] b b' h c = ground arith
bus_run-drains (s ∷ rest) b b' h c =
    let (b1, e, r) = bus_run-cons b b' s rest h in
    let (c1, d1) = bus_step-drains b b1 s e c in
    let (c2, d2) = bus_run-drains rest b1 b' r c1 in (c2, omega arith)

-- Shutdown does not wait for every caller that was let in: from any open bus that is idle there is
-- an interleaving in which a caller passes the test of `closed`, Shutdown then closes the bus, finds
-- nobody in flight and returns nil, and after that the caller goes on to run its handler.
bus_run-late_caller :
    (b : BusCounters)
    → b.closed ≡ false
    → b.in_flight ≡ 0
    → (before after : List BusStep) × (b1 b2 : BusCounters) × (bus_run b before ≡ some b1)
      × (b1.shutdown_returned ≡ some drained)
      × (b1.in_flight ≡ 0)
      × (bus_run b1 after ≡ some b2)
      × (b2.in_flight ≡ 1)
unfolding bus_run bus_step caller_step shutdown_step
bus_run-late_caller b c z =
    let returned = record b {
      checked = b.checked + 1;
      closed = true;
      done_closed = true;
      shutdown_returned = some drained;
    } in
    (
      by_caller check_closed
          ∷ by_shutdown store_closed
          ∷ by_shutdown wait_ends
          ∷ by_shutdown return_drained
          ∷ [],
      by_caller add_in_flight ∷ [],
      returned,
      record returned { checked = b.checked + 1 - 1; in_flight = b.in_flight + 1 },
      ground arith,
      refl,
      z,
      ground arith,
      omega arith,
    )
