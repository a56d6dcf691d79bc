-- ===== src/Rdb/Waiting.antt =====
-- rdb/client.go: the waiting part of `PublishQuery`. The handler takes one result from its channel.
use mquery_fcs.Prelude.{Option, none, some, List, [], ◌∷◌}
use mquery_fcs.Result.{message, ConcResult}
use mquery_fcs.Result.RoundRobin.{no_result}

-- Where the waiting goroutine is: in its loop, in its loop behind a timeout that it has reported, at
-- a second report that nobody takes, or at its end, with the subscription closed.
pub data Phase : Type 0 where
  waiting reported stuck closed : Phase

-- The case that `select` takes in a round, one of those that are ready: a notice whose result is
-- fetched, `ctx3.Done()` as `timeout`, or `a.ctx.Done()` as `cancelled`. Since `ctx3` is made from
-- `a.ctx`, the first of the two is ready from the end of the time for an answer on and also from the
-- end of the server on, when both are.
pub data Case (L : Type 0) : Type 0 where
  notice : ConcResult L → Case L
  timeout cancelled : Case L

module _ {L : Type 0} where
  abbrev pub timeout_result : ConcResult L
  timeout_result = record no_result { error = some (message "waiting for worker response timeout") }

  -- A round of the loop. Behind a timeout the loop goes on, and each further report blocks.
  unfoldable pub next_phase : Phase → Case L → Phase
  next_phase waiting (notice c) = closed
  next_phase waiting timeout = reported
  next_phase waiting cancelled = closed
  next_phase reported (notice c) = stuck
  next_phase reported timeout = stuck
  next_phase reported cancelled = closed
  next_phase stuck e = stuck
  next_phase closed e = closed

  unfoldable pub phase_after : Phase → List (Case L) → Phase
  phase_after p [] = p
  phase_after p (e ∷ es) = phase_after (next_phase p e) es

  -- What the handler takes from the channel, `none` while it waits. A channel that is closed without a
  -- report gives the zero value.
  unfoldable pub taken : List (Case L) → Option (ConcResult L)
  taken [] = none
  taken (notice c ∷ es) = some c
  taken (timeout ∷ es) = some timeout_result
  taken (cancelled ∷ es) = some no_result

  abbrev pub CancelledNext : List (Case L) → Type 0
  CancelledNext [] = ⊥
  CancelledNext (notice c ∷ es) = ⊥
  CancelledNext (timeout ∷ es) = ⊥
  CancelledNext (cancelled ∷ es) = Unit

  -- The cases after which the waiting ends.
  abbrev pub Ends : List (Case L) → Type 0
  Ends [] = ⊥
  Ends (notice c ∷ es) = Unit
  Ends (timeout ∷ es) = CancelledNext es
  Ends (cancelled ∷ es) = Unit
