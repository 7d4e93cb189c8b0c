-- ===== src/Executor/Cancellation.antt =====
-- Which context a cancellation reaches.
use meeseeks_box.Base.{
  ℕ, ◌≡◌, refl, ◌∙◌, ap, false, List, [], ◌∷◌, none, some, eqb, eqb_refl, if◌then◌else◌, arith,
}
use meeseeks_box.Executor.{ActiveCommands, lookup_ctx, delete_ctx, add, cancel}

lookup_ctx-delete_ctx :
    (id j : ℕ) (m : List (ℕ × ℕ))
    → lookup_ctx j (delete_ctx id m) ≡ (if eqb id j then none else lookup_ctx j m)
unfolding lookup_ctx delete_ctx
lookup_ctx-delete_ctx id j [] = ground arith
lookup_ctx-delete_ctx id j ((k, c) ∷ m) = ground (arith, lookup_ctx-delete_ctx id j m)

lookup_ctx-add :
    (id c j : ℕ) (a : ActiveCommands)
    → lookup_ctx j (add id c a).ctx ≡ (if eqb id j then some c else lookup_ctx j a.ctx)
unfolding add lookup_ctx
lookup_ctx-add id c j a = rw (lookup_ctx-delete_ctx id j a.ctx) (ground arith)

cancel-eq :
    (id : ℕ) (a : ActiveCommands) (c : ℕ)
    → lookup_ctx id a.ctx ≡ some c
    → cancel id a ≡ record { ctx = delete_ctx id a.ctx; cancelled = c ∷ a.cancelled }
unfolding cancel
cancel-eq id a c h = rw (h, cancel) refl

cancel-none : (id : ℕ) (a : ActiveCommands) → lookup_ctx id a.ctx ≡ none → cancel id a ≡ a
unfolding cancel
cancel-none id a h = rw (h, cancel) refl

-- A cancellation of an added job cancels the context that was made for it, once: a second one
-- changes nothing, and the other jobs keep their contexts.
pub cancel-add :
    (id c : ℕ) (a : ActiveCommands)
    → ((cancel id (add id c a)).cancelled ≡ c ∷ a.cancelled)
      × (cancel id (cancel id (add id c a)) ≡ cancel id (add id c a))
      × ((j : ℕ)
          → eqb id j ≡ false
          → lookup_ctx j (cancel id (add id c a)).ctx ≡ lookup_ctx j a.ctx)
cancel-add id c a =
    let done = cancel-eq id (add id c a) c (lookup_ctx-add id c id a ∙ rw (eqb_refl id) refl) in
    let gone : lookup_ctx id (cancel id (add id c a)).ctx ≡ none =
      rw (done, lookup_ctx-delete_ctx id id (add id c a).ctx, eqb_refl id) refl in
    (
      rw done (unfold add in refl),
      cancel-none id (cancel id (add id c a)) gone,
      λ j other.
          rw
            (
              done,
              lookup_ctx-delete_ctx id j (add id c a).ctx,
              other,
              lookup_ctx-add id c j a,
              other,
            )
            refl,
    )

-- Two jobs of the same ID, as all the jobs that are not recorded are: when either ends, the
-- context of the one that started last is cancelled, and that of the other is never.
pub cancel-add_twice :
    (id first second : ℕ) (a : ActiveCommands)
    → ((cancel id (add id second (add id first a))).cancelled ≡ second ∷ a.cancelled)
      × ((cancel id (cancel id (add id second (add id first a)))).cancelled ≡ second ∷ a.cancelled)
cancel-add_twice id first second a =
    let (one, twice, _) = cancel-add id second (add id first a) in
    let kept : (add id first a).cancelled ≡ a.cancelled = unfold add in refl in
    (
      one ∙ ap (λ l. second ∷ l) kept,
      ap (λ (x : ActiveCommands). x.cancelled) twice ∙ one ∙ ap (λ l. second ∷ l) kept,
    )
