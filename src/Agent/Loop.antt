-- ===== src/Agent/Loop.antt =====
-- The loop of Run (remote/agent/agent.go): when it starts anew, and when it ends.
use meeseeks_box.Base.{
  ℕ, zero, suc, ◌+◌, ◌≤◌, ◌≡◌, ◌≢◌, refl, ap, ◌∙◌, sym, List, [], ◌∷◌, ◌++◌, lt→ltb, le→ltb, arith,
}
use mathlib.Core.List.{append-nil}
use meeseeks_box.Remote.{CommandRequest}
use meeseeks_box.Agent.{
  Backoff, BackoffLaws, Received, command, eof, unavailable, cancelled, other_error, Connection,
  refused, stream, After, quits, waits, listen, run_on, run_from, run,
}

abbrev pub refusals : ℕ → List Connection → List Connection
refusals zero rest = rest
refusals (suc n) rest = refused ∷ refusals n rest

abbrev pub commands : List CommandRequest → List Received → List Received
commands [] rest = rest
commands (c ∷ cs) rest = command c ∷ commands cs rest

module _ {B : Type 0} (b : Backoff B) (laws : BackoffLaws b) where
  run_from-attempt :
      (s t : B) (l : List Connection) → b.attempt s ≡ b.attempt t → run_from b s l ≡ run_from b t l
  unfolding run_from
  run_from-attempt s t [] e = refl
  run_from-attempt s t (refused ∷ l) e =
      let again =
        run_from-attempt (b.duration s) (b.duration t) l
          (laws.attempt-duration s ∙ ap (λ n. n + 1) e ∙ sym (laws.attempt-duration t)) in
      rw (e, again) refl
  run_from-attempt s t (stream received ∷ l) e = ap (run_on (listen received)) (
      run_from-attempt (b.reset s) (b.reset t) l
        (laws.attempt-reset s ∙ sym (laws.attempt-reset t)))

  listen-commands :
      (cs : List CommandRequest) (rest : List Received)
      → listen (commands cs rest) ≡ (cs ++ (listen rest).0, (listen rest).1)
  unfolding listen
  listen-commands [] rest = refl
  listen-commands (c ∷ cs) rest = ap (λ o. (c ∷ o.0, o.1)) (listen-commands cs rest)

  listen_end :
      (last : Received) (more : List Received)
      → ((c : CommandRequest) → last ≢ command c)
      → last ≢ unavailable
      → listen (last ∷ more) ≡ ([], quits)
  unfolding listen
  listen_end (command c) more n m = absurd (n c refl)
  listen_end eof more n m = refl
  listen_end unavailable more n m = absurd (m refl)
  listen_end cancelled more n m = refl
  listen_end other_error more n m = refl

  -- A stream that starts commands and ends because the server is unavailable leaves the agent as if
  -- it had only started: what follows is what `run` does. After every other end the agent runs
  -- nothing more, a cancellation by Reconnect included.
  pub run-stream :
      (cs : List CommandRequest) (last : Received) (more : List Received) (rest : List Connection)
      → (run b (stream (commands cs (unavailable ∷ more)) ∷ rest)
          ≡ (cs ++ (run b rest).0, (run b rest).1))
        × (((c : CommandRequest) → last ≢ command c)
            → last ≢ unavailable
            → run b (stream (commands cs (last ∷ more)) ∷ rest) ≡ (cs, quits))
  unfolding run run_from listen
  run-stream cs last more rest = (
    ap (λ o. run_on o (run_from b (b.reset b.fresh) rest)) (listen-commands cs (unavailable ∷ more))
        ∙ ap (λ l. (l ++ again.0, again.1)) (append-nil cs)
        ∙ ap (λ o. (cs ++ o.0, o.1))
            (run_from-attempt (b.reset b.fresh) b.fresh rest
              (laws.attempt-reset b.fresh ∙ sym laws.attempt-fresh)),
    λ n m.
        ap (λ o. run_on o again) (listen-commands cs (last ∷ more))
        ∙ ap (λ o. run_on (cs ++ o.0, o.1) again) (listen_end last more n m)
        ∙ ap (λ l. (l, quits)) (append-nil cs),
  )
    where
      again : List CommandRequest × After
      again = run_from b (b.reset b.fresh) rest

  -- `n` registrations that are refused in a row at the start.
  refused_from :
      (n : ℕ) (s : B) (rest : List Connection)
      → b.attempt s + n ≤ 11
      → (t : B) × (b.attempt t ≡ b.attempt s + n)
        × (run_from b s (refusals n rest) ≡ run_from b t rest)
  unfolding run_from
  refused_from zero s rest h = (s, omega arith, refl)
  refused_from (suc n) s rest h =
      let (t, counted, same) =
        refused_from n (b.duration s) rest (omega (arith, laws.attempt-duration s)) in
      (t, omega (arith, laws.attempt-duration s), rw (le→ltb 10 (b.attempt s) (omega arith)) same)

  -- Up to eleven refused registrations change nothing: the agent waits, and runs what it would run
  -- had the next registration been the first. The twelfth in a row ends the loop.
  pub run-refusals :
      (n : ℕ) (received : List Received) (rest : List Connection)
      → n ≤ 11
      → (run b (refusals n []) ≡ ([], waits))
        × (run b (refusals n (stream received ∷ rest)) ≡ run b (stream received ∷ rest))
        × (run b (refusals 12 rest) ≡ ([], quits))
  unfolding run run_from
  run-refusals n received rest h =
      let (t, counted, same) = refused_from n b.fresh [] (omega (arith, laws.attempt-fresh)) in
      let (u, counted_u, same_u) =
        refused_from n b.fresh (stream received ∷ rest) (omega (arith, laws.attempt-fresh)) in
      let (v, counted_v, same_v) =
        refused_from 11 b.fresh (refused ∷ rest) (omega (arith, laws.attempt-fresh)) in
      (
        same,
        same_u
            ∙ ap (run_on (listen received)) (
                run_from-attempt (b.reset u) (b.reset b.fresh) rest
                  (laws.attempt-reset u ∙ sym (laws.attempt-reset b.fresh))),
        same_v ∙ rw (lt→ltb 10 (b.attempt v) (omega (arith, laws.attempt-fresh))) refl,
      )
