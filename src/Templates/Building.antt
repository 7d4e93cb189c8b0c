-- ===== src/Templates/Building.antt =====
-- What the maps of a builder and of the templates that it builds hold.
use meeseeks_box.Base.{
  ◌≡◌, refl, [], ◌∷◌, Option, none, some, Bytes, List, eq_iff, eq-cases, ◌==◌, inl, inr, arith,
  Result, ok, err, Result-cases, ℕ, subst,
}
use meeseeks_box.Base.Assoc.{Assoc, lookup, insert, Distinct, lookup-insert, Distinct-insert}
use meeseeks_box.Templates.{
  TemplatesBuilder, insert_all, with_messages, with_templates, clone, new_builder, Engine, new,
  renderers_of, payload_of, Payload, Value, texts, get_default_templates, get_default_messages,
}

-- The first of two answers that there is.
abbrev pub or_else {ℓ} : {A : Type ℓ} → Option A → Option A → Option A
or_else none o = o
or_else (some a) o = some a

module _ {ℓ} {V : Type ℓ} where
  pub lookup-insert_all :
      (src m : Assoc V) (k : Bytes)
      → Distinct src
      → lookup k (insert_all src m) ≡ or_else (lookup k src) (lookup k m)
  unfolding insert_all lookup
  lookup-insert_all [] m k h = refl
  lookup-insert_all ((j, v) ∷ src) m k (fresh, h) =
      ground (arith, lookup-insert_all src (insert j v m) k h, lookup-insert j k v m, eq_iff j k)

  pub Distinct-insert_all : (src m : Assoc V) → Distinct m → Distinct (insert_all src m)
  unfolding insert_all
  Distinct-insert_all [] m h = h
  Distinct-insert_all ((j, v) ∷ src) m h =
      Distinct-insert_all src (insert j v m) (Distinct-insert j v m h)

abbrev pub map_texts : Option (List Bytes) → Option Value
map_texts none = none
map_texts (some l) = some (texts l)

pub lookup-payload_of :
    (e : Engine) (random : ℕ → ℕ) (ms : Assoc (List Bytes)) (p : Payload) (k : Bytes)
    → Distinct ms
    → lookup k (payload_of e random ms p) ≡ or_else (map_texts (lookup k ms)) (lookup k p)
unfolding payload_of lookup
lookup-payload_of e random [] p k h = refl
lookup-payload_of e random ((j, v) ∷ ms) p k (fresh, h) = ground (
  arith,
  lookup-payload_of e random ms (insert j (texts v) p) k h,
  lookup-insert j k (texts v) p,
  eq_iff j k,
)

pub Distinct-payload_of :
    (e : Engine) (random : ℕ → ℕ) (ms : Assoc (List Bytes)) (p : Payload)
    → Distinct p
    → Distinct (payload_of e random ms p)
unfolding payload_of
Distinct-payload_of e random [] p h = h
Distinct-payload_of e random ((j, v) ∷ ms) p h =
    Distinct-payload_of e random ms (insert j (texts v) p) (Distinct-insert j (texts v) p h)

module _ (e : Engine) (random : ℕ → ℕ) where
  open e use {Template, parse}

  abbrev pub value_of : Result Template → Option Template
  value_of (ok r) = some r
  value_of (err _) = none

  abbrev pub parsed : Bytes → Option Bytes → Option Template
  parsed k none = none
  parsed k (some t) = value_of (parse k t)

  -- The renderers that were built are the templates, each parsed under its name.
  pub lookup-renderers_of :
      (ts : Assoc Bytes) (acc rs : Assoc Template) (k : Bytes)
      → Distinct ts
      → renderers_of e random ts acc ≡ some rs
      → lookup k rs ≡ or_else (parsed k (lookup k ts)) (lookup k acc)
  unfolding renderers_of lookup new
  lookup-renderers_of [] acc rs k h b = ground arith
  lookup-renderers_of ((j, t) ∷ ts) acc rs k (fresh, h) b = elim (Result-cases (parse j t)) [
    | inr (failure, bad) ↦ cc (rw (bad, renderers_of) at b)
    | inl (r, good) ↦
        let rest = lookup-renderers_of ts (insert j r acc) rs k h (rw (good, renderers_of) at b) in
        elim (eq-cases j k) [
          | inl same ↦
              let good' : parse k t ≡ ok r = subst (λ x. parse x t ≡ ok r) same good in
              let fresh' : lookup k ts ≡ none = subst (λ x. lookup x ts ≡ none) same fresh in
              ground (arith, lookup-insert j k r acc, eq_iff j k)
          | inr other ↦ ground (arith, lookup-insert j k r acc)
        ]
  ]

  -- A template of the builder parsed, if the process is still there.
  pub renderers_of-parse :
      (ts : Assoc Bytes) (acc rs : Assoc Template) (k t : Bytes)
      → renderers_of e random ts acc ≡ some rs
      → lookup k ts ≡ some t
      → (r : Template) × (parse k t ≡ ok r)
  unfolding renderers_of lookup new
  renderers_of-parse [] acc rs k t b h = cc
  renderers_of-parse ((j, s) ∷ ts) acc rs k t b h = elim (Result-cases (parse j s)) [
    | inr (failure, bad) ↦ cc (rw (bad, renderers_of) at b)
    | inl (r, good) ↦ elim (eq-cases j k) [
      | inl same ↦ (
        r,
        let found : s ≡ t = ground (arith, eq_iff j k) in
            subst (λ x. parse k x ≡ ok r) found (subst (λ x. parse x s ≡ ok r) same good),
      )
      | inr other ↦
          renderers_of-parse ts (insert j r acc) rs k t (rw (good, renderers_of) at b)
            (rw other at h)
    ]
  ]

-- A clone of a builder holds what the builder holds, over the defaults.
pub lookup-clone :
    (b : TemplatesBuilder) (k : Bytes)
    → Distinct b.messages
    → Distinct b.templates
    → (lookup k (clone b).messages ≡ or_else (lookup k b.messages) (lookup k get_default_messages))
      × (lookup k (clone b).templates
          ≡ or_else (lookup k b.templates) (lookup k get_default_templates))
unfolding clone with_messages with_templates new_builder
lookup-clone b k h j = (
  lookup-insert_all b.messages get_default_messages k h,
  lookup-insert_all b.templates get_default_templates k j,
)

pub Distinct-default_messages : Distinct get_default_messages
unfolding get_default_messages lookup ◌==◌
Distinct-default_messages = (refl, (refl, (refl, (refl, (refl, tt)))))

pub Distinct-default_templates : Distinct get_default_templates
unfolding get_default_templates lookup ◌==◌
Distinct-default_templates = (refl, (refl, (refl, (refl, (refl, tt)))))
