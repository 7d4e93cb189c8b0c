-- ===== src/Executor/Closing/Drained.antt =====
-- What is left when Shutdown has waited.
use meeseeks_box.Base.{ℕ, ◌≡◌, refl, List, [], ◌∷◌, ◌++◌, All, All-append, Elem, here, there}
use meeseeks_box.Auth.{Auth}
use meeseeks_box.Executor.{
  Task, JobService, State, Outcome, replied, queued, panicked, admit, Step, Reachable, then_step,
}
use meeseeks_box.Executor.Accounting.{wg_counts}
use meeseeks_box.Executor.Closing.{
  Phase, serving, waiting, waited, closed, crashed, IsBehindWait, IsBeforeWait, Closing, at,
  received, received_closed, Shuts, works, shuts_down, stops_waiting, closes, closes_blocked,
  receives, receives_closed, begins, ends, cancels, registers, Reached, called, then_shuts,
}

module _ {A : Type 0} (P : A → Type 0) where
  All-drop_middle : (xs : List A) (y : A) (ys : List A) → All P (xs ++ y ∷ ys) → All P (xs ++ ys)
  All-drop_middle [] y ys (p, h) = h
  All-drop_middle (x ∷ xs) y ys (p, h) = (p, All-drop_middle xs y ys h)

module _ {S : Type 0} (jobs : JobService S) (auth : Auth) where
  -- Each task that waits or runs was accepted late.
  abbrev pub AreLate : State jobs → List Task → Type 0
  AreLate st late = All (λ t. Elem t late) st.queue × All (λ e. Elem e.0 late) st.running

  -- Before the end of the wait the state is one that the executor reaches.
  abbrev IsSound : Closing jobs → Type 0
  IsSound c = elim c.phase [
    | serving ↦ Reachable jobs auth c.state
    | waiting ↦ Reachable jobs auth c.state
    | waited ↦ AreLate c.state c.late
    | closed ↦ AreLate c.state c.late
    | crashed ↦ Unit
  ]

  weaker :
      (t : Task) (late xs : List Task) → All (λ x. Elem x late) xs → All (λ x. Elem x (t ∷ late)) xs
  weaker t late [] h = tt
  weaker t late (x ∷ xs) (e, h) = (there e, weaker t late xs h)

  weaker_running :
      (t : Task) (late : List Task) (xs : List (Task × ℕ))
      → All (λ x. Elem x.0 late) xs
      → All (λ x. Elem x.0 (t ∷ late)) xs
  weaker_running t late [] h = tt
  weaker_running t late (x ∷ xs) (e, h) = (there e, weaker_running t late xs h)

  received-IsSound :
      (o : Outcome jobs) (st : State jobs) (late : List Task)
      → AreLate st late
      → IsSound (received jobs o st late)
  received-IsSound (replied r w) st late h = h
  received-IsSound (queued t w) st late (q, r) = (
    All-append _ st.queue (t ∷ []) (weaker t late st.queue q) (here, tt),
    weaker_running t late st.running r,
  )
  received-IsSound panicked st late h = tt

  received_closed-IsSound :
      (o : Outcome jobs) (st : State jobs) (late : List Task)
      → AreLate st late
      → IsSound (received_closed jobs o st late)
  received_closed-IsSound (replied r w) st late h = h
  received_closed-IsSound (queued t w) st late h = tt
  received_closed-IsSound panicked st late h = tt

  is_behind :
      (p : Phase) (st : State jobs) (late : List Task)
      → IsBehindWait p
      → AreLate st late
      → IsSound (at jobs st p late)
  is_behind waited st late b h = h
  is_behind closed st late b h = h
  is_behind serving st late b h = absurd b
  is_behind waiting st late b h = absurd b
  is_behind crashed st late b h = absurd b

  are_late :
      (p : Phase) (st : State jobs) (late : List Task)
      → IsBehindWait p
      → IsSound (at jobs st p late)
      → AreLate st late
  are_late waited st late b h = h
  are_late closed st late b h = h
  are_late serving st late b h = absurd b
  are_late waiting st late b h = absurd b
  are_late crashed st late b h = absurd b

  works-IsSound :
      (p : Phase) (st st' : State jobs) (late : List Task)
      → IsBeforeWait p
      → Step jobs auth st st'
      → IsSound (at jobs st p late)
      → IsSound (at jobs st' p late)
  works-IsSound serving st st' late b s h = then_step h s
  works-IsSound waiting st st' late b s h = then_step h s
  works-IsSound waited st st' late b s h = absurd b
  works-IsSound closed st st' late b s h = absurd b
  works-IsSound crashed st st' late b s h = absurd b

  drained :
      (st : State jobs) (late : List Task) → Reachable jobs auth st → st.wg ≡ 0 → AreLate st late
  drained st late r z = let (q, s) = (wg_counts jobs auth st r).1 z in rw (q, s) (tt, tt)

  Shuts-IsSound :
      (capacity : ℕ) {c c' : Closing jobs} → Shuts jobs auth capacity c c' → IsSound c → IsSound c'
  Shuts-IsSound capacity (works st st' p late b s) h = works-IsSound p st st' late b s h
  Shuts-IsSound capacity (shuts_down st late) h = h
  Shuts-IsSound capacity (stops_waiting st late z) h = drained st late h z
  Shuts-IsSound capacity (closes st late f) h = h
  Shuts-IsSound capacity (closes_blocked st late f) h = tt
  Shuts-IsSound capacity (receives st late alias req) h =
      received-IsSound (admit jobs auth alias req st.registry st.store) st late h
  Shuts-IsSound capacity (receives_closed st late alias req) h =
      received_closed-IsSound (admit jobs auth alias req st.registry st.store) st late h
  Shuts-IsSound capacity (begins st p late t rest b e) h =
      let (q, r) = are_late p st late b h in
      let (first, others) : Elem t late × All (λ x. Elem x late) rest = rw e at q in
      is_behind p _ late b (others, (first, r))
  Shuts-IsSound capacity (ends st p late before t ctx behind out e b s) h =
      let (q, r) = are_late p st late b h in
      is_behind p _ late b
        (q, All-drop_middle (λ x. Elem x.0 late) before (t, ctx) behind (rw s at r))
  Shuts-IsSound capacity (cancels st p late id b) h = is_behind p _ late b (are_late p st late b h)
  Shuts-IsSound capacity (registers st p late registry b) h =
      is_behind p _ late b (are_late p st late b h)

  Reached-IsSound : (capacity : ℕ) {c : Closing jobs} → Reached jobs auth capacity c → IsSound c
  Reached-IsSound capacity (called r) = r
  Reached-IsSound capacity (then_shuts r s) = Shuts-IsSound capacity s (Reached-IsSound capacity r)

  -- Whatever requests, goroutines, cancellations and registrations come, and in whatever order:
  -- once Shutdown's wait is over, each task that waits or runs was accepted since, so that none is
  -- left if none was accepted.
  pub shutdown-drains :
      (capacity : ℕ) (c : Closing jobs)
      → Reached jobs auth capacity c
      → IsBehindWait c.phase
      → AreLate c.state c.late × (c.late ≡ [] → (c.state.queue ≡ []) × (c.state.running ≡ []))
  shutdown-drains capacity c r b =
      let h = are_late c.phase c.state c.late b (Reached-IsSound capacity r) in
      (
        h,
        λ e. (
          none_late (λ t. t) c.state.queue (rw e at h.0),
          none_late (λ x. x.0) c.state.running (rw e at h.1),
        ),
      )
    where
      none_late : {A : Type 0} (f : A → Task) (xs : List A) → All (λ x. Elem (f x) []) xs → xs ≡ []
      none_late f [] h = refl
      none_late f (x ∷ xs) (e, h) = elim e [ ]
