-- ===== src/Formatter/Rendering.antt =====
-- The text of a reply: which template it is rendered by, and what the template sees.
use meeseeks_box.Base.{
  ◌≡◌, refl, ◌∙◌, [], Option, none, some, Bytes, List, ◌==◌, inl, inr, ok, ℕ, ap, Option-cases,
  subst,
}
use meeseeks_box.Base.Assoc.{Assoc, lookup, Distinct}
use meeseeks_box.Templates.{
  get_default_templates, get_default_messages, TemplatesBuilder, new_builder, with_messages,
  with_templates, clone, Value, text, texts, Payload, Outcome, rendered, panicked, any_value,
  any_of, drawn, or_failed, Engine, renderers_of, payload_of, build, new_payload, render_with,
  render_template, insert_all, Templates,
}
use meeseeks_box.Templates
use meeseeks_box.Templates.Building.{
  or_else, lookup-insert_all, Distinct-insert_all, map_texts, lookup-payload_of,
  Distinct-payload_of, parsed, value_of, lookup-renderers_of, renderers_of-parse, lookup-clone,
  Distinct-default_messages, Distinct-default_templates,
}
use meeseeks_box.Formatter.{FormatConfig, configure, Reply, new_replier, reply_payload, render}

-- The template of an action: the configured one, or else the default.
abbrev pub template_for : FormatConfig → Bytes → Option Bytes
template_for cnf action =
    or_else (lookup action cnf.templates) (lookup action get_default_templates)

-- The messages under a name: the configured ones, or else the default ones.
abbrev pub messages_for : FormatConfig → Bytes → Option (List Bytes)
messages_for cnf k = or_else (lookup k cnf.messages) (lookup k get_default_messages)

-- What a template finds under a name: the reply's own value, or else the messages of that name.
abbrev pub shown : FormatConfig → Reply → Bytes → Option Value
shown cnf r k = or_else (lookup k (reply_payload r)) (map_texts (messages_for cnf k))

Distinct-reply_payload : (r : Reply) → Distinct (reply_payload r)
unfolding reply_payload lookup ◌==◌
Distinct-reply_payload r =
    (refl, (refl, (refl, (refl, (refl, (refl, (refl, (refl, (refl, (refl, (refl, tt)))))))))))

or_else_again {ℓ} : {A : Type ℓ} (o d : Option A) → or_else (or_else o d) d ≡ or_else o d
or_else_again none none = refl
or_else_again none (some d) = refl
or_else_again (some a) d = refl

or_else-none {ℓ} : {A : Type ℓ} (o : Option A) → or_else o none ≡ o
or_else-none none = refl
or_else-none (some a) = refl

pub or_else-some {ℓ} : {A : Type ℓ} (o : Option A) (d : A) → (a : A) × (or_else o (some d) ≡ some a)
or_else-some none d = (d, refl)
or_else-some (some a) d = (a, refl)

module _ (e : Engine) (random : ℕ → ℕ) where
  render_exits :
      (r : Reply) → renderers_of e random r.templates.templates [] ≡ none → render e random r ≡ none
  unfolding render
  render_exits r h =
      let none_built : build e random r.templates ≡ none = unfold build in rw (h, build) in
      rw (none_built, render)

  render_built :
      (r : Reply) (rs : Assoc e.Template)
      → renderers_of e random r.templates.templates [] ≡ some rs
      → render e random r
        ≡ some (
            render_with e random r.action
              (insert_all
                (reply_payload r)
                (insert_all (payload_of e random r.templates.messages []) []))
              (lookup r.action rs))
  unfolding render Templates.render new_payload
  render_built r rs h =
      let built : build e random r.templates
          ≡ some (record {
            renderers = rs;
            default_payload = payload_of e random r.templates.messages [];
          }) =
        unfold build in rw (h, build) in
      rw (built, render)

module _ (cnf : FormatConfig) (once_m : Distinct cnf.messages)
    (once_t : Distinct cnf.templates) where
  abbrev builder : TemplatesBuilder
  builder = with_templates cnf.templates (with_messages cnf.messages new_builder)

  clone_messages : (k : Bytes) → lookup k (clone builder).messages ≡ messages_for cnf k
  unfolding with_templates with_messages new_builder
  clone_messages k =
      (lookup-clone builder k
        (Distinct-insert_all cnf.messages get_default_messages Distinct-default_messages)
        (Distinct-insert_all cnf.templates get_default_templates Distinct-default_templates)).0
      ∙ ap (λ o. or_else o (lookup k get_default_messages))
          (lookup-insert_all cnf.messages get_default_messages k once_m)
      ∙ or_else_again (lookup k cnf.messages) (lookup k get_default_messages)

  clone_templates : (k : Bytes) → lookup k (clone builder).templates ≡ template_for cnf k
  unfolding with_templates with_messages new_builder
  clone_templates k =
      (lookup-clone builder k
        (Distinct-insert_all cnf.messages get_default_messages Distinct-default_messages)
        (Distinct-insert_all cnf.templates get_default_templates Distinct-default_templates)).1
      ∙ ap (λ o. or_else o (lookup k get_default_templates))
          (lookup-insert_all cnf.templates get_default_templates k once_t)
      ∙ or_else_again (lookup k cnf.templates) (lookup k get_default_templates)

  clone-Distinct : Distinct (clone builder).messages × Distinct (clone builder).templates
  unfolding clone with_templates with_messages new_builder
  clone-Distinct = (
    Distinct-insert_all builder.messages get_default_messages Distinct-default_messages,
    Distinct-insert_all builder.templates get_default_templates Distinct-default_templates,
  )

  module _ (e : Engine) (random : ℕ → ℕ) where
    open e use {Template, parse, name, execute}

    abbrev pub payload_seen : Reply → Payload
    payload_seen r =
        insert_all (reply_payload r)
          (insert_all (payload_of e random (clone builder).messages []) [])

    pub seen : (r : Reply) (k : Bytes) → lookup k (payload_seen r) ≡ shown cnf r k
    unfolding lookup
    seen r k =
        let own = payload_of e random (clone builder).messages [] in
        let copied : lookup k (insert_all own []) ≡ map_texts (messages_for cnf k) =
          lookup-insert_all own [] k (Distinct-payload_of e random (clone builder).messages [] tt)
          ∙ or_else-none (lookup k own)
          ∙ lookup-payload_of e random (clone builder).messages [] k clone-Distinct.0
          ∙ or_else-none (map_texts (lookup k (clone builder).messages))
          ∙ ap map_texts (clone_messages k) in
        lookup-insert_all (reply_payload r) (insert_all own []) k (Distinct-reply_payload r)
        ∙ ap (or_else (lookup k (reply_payload r))) copied

    rendered_by :
        (action d : Bytes) (rs : Assoc Template)
        → lookup action get_default_templates ≡ some d
        → renderers_of e random (clone builder).templates [] ≡ some rs
        → (t : Bytes) × (tpl : Template) × (template_for cnf action ≡ some t)
          × (parse action t ≡ ok tpl)
          × (lookup action rs ≡ some tpl)
    unfolding lookup
    rendered_by action d rs known h =
        let (t, chosen) = or_else-some (lookup action cnf.templates) d in
        let template : template_for cnf action ≡ some t =
          ap (or_else (lookup action cnf.templates)) known ∙ chosen in
        let stored : lookup action (clone builder).templates ≡ some t =
          clone_templates action ∙ template in
        let (tpl, good) =
          renderers_of-parse e random (clone builder).templates [] rs action t h stored in
        (
          t,
          tpl,
          template,
          good,
          lookup-renderers_of e random (clone builder).templates [] rs action clone-Distinct.1 h
              ∙ or_else-none (parsed e random action (lookup action (clone builder).templates))
              ∙ ap (parsed e random action) stored
              ∙ ap (value_of e random) good,
        )

    -- A reply to an action of the bot, if it is rendered at all, is rendered by the configured
    -- template of the action, or else by the default one; under each name the template finds the
    -- reply's own value, or else the configured messages, or else the default ones.
    pub render-shown :
        (r : Reply) (d : Bytes) (o : Outcome)
        → lookup r.action get_default_templates ≡ some d
        → r.templates ≡ (new_replier (configure cnf) r.action r.request).templates
        → render e random r ≡ some o
        → (t : Bytes) × (tpl : Template) × (p : Payload) × (template_for cnf r.action ≡ some t)
          × (parse r.action t ≡ ok tpl)
          × ((k : Bytes) → lookup k p ≡ shown cnf r k)
          × (o ≡ or_failed (name tpl) (or_failed (name tpl) (execute tpl (any_value random) p)))
    unfolding configure new_replier render_template reply_payload
    render-shown r d o known made h =
        let r' : Reply = record r { templates = clone builder } in
        let h' : render e random r' ≡ some o =
          subst (λ b. render e random (record r { templates = b }) ≡ some o) made h in
        elim (Option-cases (renderers_of e random (clone builder).templates [])) [
          | inl gone ↦ cc (render_exits e random r' gone)
          | inr (rs, parsed_all) ↦
              let (t, tpl, template, good, found) = rendered_by r.action d rs known parsed_all in
              let shows : render e random r'
                  ≡ some (render_with e random r.action (payload_seen r) (some tpl)) =
                render_built e random r' rs parsed_all
                ∙ ap (λ x. some (render_with e random r.action (payload_seen r) x)) found in
              (t, tpl, payload_seen r, template, good, seen r, cc)
        ]
