-- ===== src/Templates.antt =====
-- text/template/template.go: the templates and the messages of the replies, and what a template is
-- rendered with. The engine of Go's text/template is a parameter, and so is the random number.
pub mod Building
use meeseeks_box.Base.{
  ℕ, ◌<◌, ◌≡◌, List, [], ◌∷◌, ◌++◌, Option, none, some, Bool, Bytes, str, Result, ok, err, errorf,
  wrapf, Error, get_elem?, length, or_wrap,
}
use meeseeks_box.Base.Assoc.{Assoc, lookup, insert}

abbrev pub handshake_action : Bytes
handshake_action = str "handshake"

abbrev pub success_action : Bytes
success_action = str "success"

abbrev pub failure_action : Bytes
failure_action = str "failure"

abbrev pub unknown_command_action : Bytes
unknown_command_action = str "unknowncommand"

abbrev pub unauthorized_action : Bytes
unauthorized_action = str "unauthorized"

-- `{{ with $out := .output }}` and what it shows: the output between two lines of back quotes
abbrev output_block : Bytes
output_block = str "{{ with $out := .output }}\n```\n{{ $out }}```{{ end }}"

abbrev any_value_of : Bytes → Bytes
any_value_of action = str "{{ AnyValue \"" ++ (action ++ str "\" . }}")

abbrev pub default_handshake_template : Bytes
default_handshake_template = any_value_of handshake_action

abbrev pub default_success_template : Bytes
default_success_template = str "{{ .userlink }} " ++ (any_value_of success_action ++ output_block)

abbrev pub default_failure_template : Bytes
default_failure_template =
    str "{{ .userlink }} "
    ++ (any_value_of failure_action ++ (str " :disappointed: {{ .error }}" ++ output_block))

abbrev pub default_unknown_command_template : Bytes
default_unknown_command_template =
    str "{{ .userlink }} " ++ (any_value_of unknown_command_action ++ str " {{ .command }}")

abbrev pub default_unauthorized_template : Bytes
default_unauthorized_template =
    str "{{ .userlink }} "
    ++ (any_value_of unauthorized_action ++ str " {{ .command }}: {{ .error }}")

unfoldable pub get_default_templates : Assoc Bytes
get_default_templates =
    (handshake_action, default_handshake_template)
    ∷ (success_action, default_success_template)
    ∷ (failure_action, default_failure_template)
    ∷ (unknown_command_action, default_unknown_command_template)
    ∷ (unauthorized_action, default_unauthorized_template)
    ∷ []

abbrev pub default_handshake_messages : List Bytes
default_handshake_messages =
    str "I'm Mr Meeseeks! look at me!"
    ∷ str "Mr Meeseeks!"
    ∷ str "Ooh, yeah! Can do!"
    ∷ str "Ooh, ok!"
    ∷ str "Yes, siree!"
    ∷ str "Ooh, I'm Mr. Meeseeks! Look at me!"
    ∷ []

abbrev pub default_success_messages : List Bytes
default_success_messages = str "All done!" ∷ str "Mr Meeseeks" ∷ str "Uuuuh, nice!" ∷ []

abbrev pub default_failed_messages : List Bytes
default_failed_messages = str "Uuuh!, no, it failed" ∷ []

abbrev pub default_unauthorized_messages : List Bytes
default_unauthorized_messages = str "Uuuuh, yeah! you are not allowed to do" ∷ []

abbrev pub default_unknown_command_messages : List Bytes
default_unknown_command_messages = str "Uuuh! no, I don't know how to do" ∷ []

unfoldable pub get_default_messages : Assoc (List Bytes)
get_default_messages =
    (handshake_action, default_handshake_messages)
    ∷ (success_action, default_success_messages)
    ∷ (failure_action, default_failed_messages)
    ∷ (unknown_command_action, default_unknown_command_messages)
    ∷ (unauthorized_action, default_unauthorized_messages)
    ∷ []

pub record TemplatesBuilder : Type 0 where
  pub messages : Assoc (List Bytes)
  pub templates : Assoc Bytes

unfoldable pub new_builder : TemplatesBuilder
unfolding get_default_templates get_default_messages
new_builder = record { messages = get_default_messages; templates = get_default_templates }

-- the loops that write each entry of a map into another
unfoldable pub insert_all {ℓ} : {V : Type ℓ} → Assoc V → Assoc V → Assoc V
insert_all [] m = m
insert_all ((name, v) ∷ rest) m = insert_all rest (insert name v m)

unfoldable pub with_messages : Assoc (List Bytes) → TemplatesBuilder → TemplatesBuilder
with_messages messages b = record b { messages = insert_all messages b.messages }

unfoldable pub with_templates : Assoc Bytes → TemplatesBuilder → TemplatesBuilder
with_templates templates b = record b { templates = insert_all templates b.templates }

unfoldable pub clone : TemplatesBuilder → TemplatesBuilder
unfolding with_messages with_templates new_builder
clone b = with_templates b.templates (with_messages b.messages new_builder)

-- what a payload holds under a name: a text, a truth value, an error or nil, or a slice of texts
pub data Value : Type 0 where
  text : Bytes → Value
  flag : Bool → Value
  error_value : Option Error → Value
  texts : List Bytes → Value

abbrev pub Payload : Type 0
Payload = Assoc Value

-- What a call may end in: a value, an error, or a panic.
pub data Outcome : Type 0 where
  rendered : Bytes → Outcome
  failed : Error → Outcome
  panicked : Outcome

abbrev pub drawn : Option Bytes → Outcome
drawn none = panicked
drawn (some s) = rendered s

abbrev pub any_of : (ℕ → ℕ) → Bytes → Option Value → Outcome
any_of random key none = failed (errorf "%s is not loaded in the payload" (key ∷ []))
any_of random key (some (texts values)) = drawn (get_elem? values (random (length values)))
any_of random key (some (text _)) = failed (errorf "%s is not a string slice" (key ∷ []))
any_of random key (some (flag _)) = failed (errorf "%s is not a string slice" (key ∷ []))
any_of random key (some (error_value _)) = failed (errorf "%s is not a string slice" (key ∷ []))

-- `random` gives the number below the length that rand.Intn draws; of an empty slice it panics.
unfoldable pub any_value : (ℕ → ℕ) → Bytes → Payload → Outcome
any_value random key payload = any_of random key (lookup key payload)

-- text/template: a parsed template, and its execution with the function AnyValue.
pub record Engine : Type 1 where
  pub Template : Type 0
  pub parse : Bytes → Bytes → Result Template
  pub name : Template → Bytes
  pub execute : Template → (Bytes → Payload → Outcome) → Payload → Outcome

-- `if err != nil { return "", fmt.Errorf(…) }`, of a template
abbrev pub or_failed : Bytes → Outcome → Outcome
or_failed template (failed failure) =
    failed (wrapf "failed to execute template %s: %s" (template ∷ []) failure)
or_failed template (rendered s) = rendered s
or_failed template panicked = panicked

module _ (e : Engine) (random : ℕ → ℕ) where
  open e use {Template, parse, name, execute}

  unfoldable pub new : Bytes → Bytes → Result Template
  new name template = or_wrap "could not parse template %s: %s" (name ∷ []) (parse name template)

  -- Renderer.Render
  unfoldable pub render_template : Template → Payload → Outcome
  render_template template payload =
      or_failed (name template) (execute template (any_value random) payload)

  pub record Templates : Type 0 where
    pub renderers : Assoc Template
    pub default_payload : Payload

  -- The loop of Build; `none` is the exit of log.Fatalf.
  unfoldable pub renderers_of : Assoc Bytes → Assoc Template → Option (Assoc Template)
  renderers_of [] renderers = some renderers
  renderers_of ((name, template) ∷ rest) renderers = elim (new name template) [
    | err _ ↦ none
    | ok renderer ↦ renderers_of rest (insert name renderer renderers)
  ]

  unfoldable pub payload_of : Assoc (List Bytes) → Payload → Payload
  payload_of [] payload = payload
  payload_of ((k, v) ∷ rest) payload = payload_of rest (insert k (texts v) payload)

  unfoldable pub build : TemplatesBuilder → Option Templates
  build b = elim (renderers_of b.templates []) [
    | none ↦ none
    | some renderers ↦
        some (record { renderers = renderers; default_payload = payload_of b.messages [] })
  ]

  unfoldable pub new_payload : Templates → Payload
  new_payload t = insert_all t.default_payload []

  abbrev pub render_with : Bytes → Payload → Option Template → Outcome
  render_with action payload none = failed (errorf "could not find action %s" (action ∷ []))
  render_with action payload (some renderer) =
      or_failed (name renderer) (render_template renderer payload)

  unfoldable pub render : Templates → Bytes → Payload → Outcome
  render t action payload =
      let p = insert_all payload (new_payload t) in render_with action p (lookup action t.renderers)
