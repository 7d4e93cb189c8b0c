-- ===== src/Formatter/Drawing.antt =====
-- The message that a reply draws among those of its action.
use meeseeks_box.Base.{
  ◌≡◌, refl, ◌∙◌, [], ◌∷◌, none, some, Bytes, List, ◌==◌, inl, inr, arith, ℕ, ap, ◌<◌, Elem, here,
  there, zero, suc, length, get_elem?, ◌⊎◌,
}
use meeseeks_box.Base.Assoc.{lookup, All-lookup}
use meeseeks_box.Templates.{
  default_handshake_messages, default_success_messages, default_failed_messages,
  default_unknown_command_messages, default_unauthorized_messages, get_default_templates,
  get_default_messages, texts, Payload, rendered, panicked, any_value, any_of, drawn,
}
use meeseeks_box.Templates.Building.{or_else, map_texts}
use meeseeks_box.Formatter.Rendering.{messages_for, shown, or_else-some}
use meeseeks_box.Formatter.{FormatConfig, Reply, reply_payload}

-- No action is the name of a reply's own value, and each has default messages.
action_free :
    (r : Reply) (a d : Bytes)
    → lookup a get_default_templates ≡ some d
    → (lookup a (reply_payload r) ≡ none)
      × ((ms : List Bytes) × (lookup a get_default_messages ≡ some ms))
unfolding get_default_templates reply_payload get_default_messages lookup ◌==◌
action_free r a d known =
    All-lookup
      (λ e.
        (lookup e.0 (reply_payload r) ≡ none)
        × ((ms : List Bytes) × (lookup e.0 get_default_messages ≡ some ms)))
      get_default_templates a d
      (
        (refl, (default_handshake_messages, refl)),
        (
          (refl, (default_success_messages, refl)),
          (
            (refl, (default_failed_messages, refl)),
            (
              (refl, (default_unknown_command_messages, refl)),
              ((refl, (default_unauthorized_messages, refl)), tt),
            ),
          ),
        ),
      )
      known

get_elem?-Elem {ℓ} :
    {A : Type ℓ} (xs : List A) (i : ℕ)
    → i < length xs
    → (a : A) × Elem a xs × (get_elem? xs i ≡ some a)
get_elem?-Elem [] i h = absurd (omega arith)
get_elem?-Elem (x ∷ xs) zero h = (x, here, refl)
get_elem?-Elem (x ∷ xs) (suc i) h =
    let (a, l, e) = get_elem?-Elem xs i (omega arith) in (a, there l, e)

drawn_of :
    (random : ℕ → ℕ) (k : Bytes) (ms : List Bytes)
    → ((n : ℕ) → 0 < n → random n < n)
    → ((ms ≡ []) × (any_of random k (some (texts ms)) ≡ panicked))
      ⊎ ((s : Bytes) × Elem s ms × (any_of random k (some (texts ms)) ≡ rendered s))
drawn_of random k [] below = inl (refl, refl)
drawn_of random k (m ∷ ms) below =
    let (s, l, e) = get_elem?-Elem (m ∷ ms) (random (length (m ∷ ms))) (below _ (omega arith)) in
    inr (s, l, ap drawn e)

-- In a reply to an action of the bot, AnyValue of the action draws one of the messages that are
-- configured for it, or else of the default ones; and it panics exactly if none is there to draw.
-- The random number is below the one that it is asked for.
pub any_value-drawn :
    (cnf : FormatConfig) (r : Reply) (random : ℕ → ℕ) (p : Payload) (d : Bytes)
    → lookup r.action get_default_templates ≡ some d
    → ((k : Bytes) → lookup k p ≡ shown cnf r k)
    → ((n : ℕ) → 0 < n → random n < n)
    → (ms : List Bytes) × (messages_for cnf r.action ≡ some ms)
      × (((ms ≡ []) × (any_value random r.action p ≡ panicked))
          ⊎ ((s : Bytes) × Elem s ms × (any_value random r.action p ≡ rendered s)))
unfolding any_value
any_value-drawn cnf r random p d known shows below =
    let (free, (ds, defaults)) = action_free r r.action d known in
    let (ms, chosen) = or_else-some (lookup r.action cnf.messages) ds in
    let messages : messages_for cnf r.action ≡ some ms =
      ap (or_else (lookup r.action cnf.messages)) defaults ∙ chosen in
    let found : lookup r.action p ≡ some (texts ms) =
      shows r.action
      ∙ ap (λ o. or_else o (map_texts (messages_for cnf r.action))) free
      ∙ ap map_texts messages in
    let draws : any_value random r.action p ≡ any_of random r.action (some (texts ms)) =
      ap (any_of random r.action) found in
    (
      ms,
      messages,
      elim (drawn_of random r.action ms below) [
        | inl (e, panics) ↦ inl (e, draws ∙ panics)
        | inr (s, l, e) ↦ inr (s, l, draws ∙ e)
      ],
    )
