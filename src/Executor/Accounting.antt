-- ===== src/Executor/Accounting.antt =====
-- The wait group counts the tasks that wait or run.
use meeseeks_box.Base.{◌+◌, ◌≡◌, refl, ap, List, [], ◌∷◌, length, length-append, arith}
use meeseeks_box.Auth.{Auth}
use meeseeks_box.Executor.{
  JobService, State, Outcome, replied, queued, panicked, admit, after, Step, receive, begin, end,
  cancels, registers, Reachable, initially, then_step,
}

module _ {S : Type 0} (jobs : JobService S) (auth : Auth) where
  abbrev IsCounted : State jobs → Type 0
  IsCounted st = st.wg ≡ length st.queue + length st.running

  after-IsCounted :
      (o : Outcome jobs) (st : State jobs) → IsCounted st → IsCounted (after jobs o st)
  after-IsCounted (replied r w) st h = h
  after-IsCounted (queued t w) st h = omega (arith, h, length-append st.queue (t ∷ []))
  after-IsCounted panicked st h = h

  Step-IsCounted : {st st' : State jobs} → Step jobs auth st st' → IsCounted st → IsCounted st'
  Step-IsCounted (receive st alias req) h =
      after-IsCounted (admit jobs auth alias req st.registry st.store) st h
  Step-IsCounted (begin st t rest e) h = omega (arith, h, ap length e)
  Step-IsCounted (end st before t ctx behind out e s) h =
      omega (
        arith,
        h,
        ap length s,
        length-append before ((t, ctx) ∷ behind),
        length-append before behind,
      )
  Step-IsCounted (cancels st id) h = h
  Step-IsCounted (registers st registry) h = h

  -- In every state that is reached, the wait group counts the tasks that wait in the channel and
  -- those that run, so that none is left when it is zero, which Shutdown waits for.
  pub wg_counts :
      (st : State jobs)
      → Reachable jobs auth st
      → (st.wg ≡ length st.queue + length st.running)
        × (st.wg ≡ 0 → (st.queue ≡ []) × (st.running ≡ []))
  wg_counts st r = (
    counted r,
    λ z. (
      empty st.queue (omega (arith, counted r, z)),
      empty st.running (omega (arith, counted r, z)),
    ),
  )
    where
      counted : {s : State jobs} → Reachable jobs auth s → IsCounted s
      counted (initially registry w) = refl
      counted (then_step q s) = Step-IsCounted s (counted q)

      empty : {A : Type 0} (xs : List A) → length xs ≡ 0 → xs ≡ []
      empty [] e = refl
      empty (x ∷ xs) e = absurd (omega (arith, e))
