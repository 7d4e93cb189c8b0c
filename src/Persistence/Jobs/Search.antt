-- ===== src/Persistence/Jobs/Search.antt =====
-- What the search of the jobs finds: the newest matches, up to the limit.
use meeseeks_box.Base.{
  true, Option, none, sym, ltb, or_wrap, ℕ, zero, suc, ◌+◌, ◌≡◌, refl, ◌∙◌, ap, List, [], ◌∷◌, ◌++◌,
  reverse, some, Bytes, arith, ok, length, length-append, take, filter, lt→ltb, le→ltb, ltb→lt,
  bind-eq-ok, All, All-append, ◌≤◌, Bool-cases, inl, inr,
}
use mathlib.Core.List.{append-nil, append_assoc}
use meeseeks_box.Model.{Job, JobFilter}
use meeseeks_box.Persistence.Bolt.{Bolt, Codec}
use meeseeks_box.Persistence.Jobs.{JobsDb, find_loop, find, payloads}

module _ {P : Type 0} (jb : Bolt P) (rb : Bolt Bytes) (codec : Codec Job P) where
  -- The payloads of these jobs.
  abbrev pub Holds : List P → List Job → Type 0
  Holds [] [] = Unit
  Holds [] (j ∷ js) = ⊥
  Holds (p ∷ ps) [] = ⊥
  Holds (p ∷ ps) (j ∷ js) = (codec.unmarshal p ≡ ok j) × Holds ps js

  take_nil : {A : Type 0} (k : ℕ) → take {A = A} k [] ≡ []
  take_nil zero = refl
  take_nil (suc k) = refl

  find_loop-take :
      (f : JobFilter) (ps : List P) (js latest : List Job) (k : ℕ)
      → Holds ps js
      → f.limit ≡ length latest + k
      → find_loop jb rb codec f ps latest ≡ ok (latest ++ take k (filter f.match js))
  unfolding find_loop
  find_loop-take f [] [] latest k h e = rw (take_nil k, append-nil) refl
  find_loop-take f [] (j ∷ js) latest k h e = absurd h
  find_loop-take f (p ∷ ps) [] latest k h e = absurd h
  find_loop-take f (p ∷ ps) (j ∷ js) latest zero (read, h) e =
      rw (append-nil, le→ltb (length latest) f.limit (omega (arith, e))) refl
  find_loop-take f (p ∷ ps) (j ∷ js) latest (suc k) (read, h) e =
      let more = lt→ltb (length latest) f.limit (omega (arith, e)) in
      elim (Bool-cases (f.match j)) [
        | inl hit ↦
            rw (more, read, hit)
              (find_loop-take f ps js (latest ++ j ∷ []) k h
                  (omega (arith, e, length-append latest (j ∷ [])))
                ∙ ap (λ l. ok l) (append_assoc latest (j ∷ []) (take k (filter f.match js))))
        | inr miss ↦ rw (more, read, miss) (find_loop-take f ps js latest (suc k) h e)
      ]

  -- When every stored job can be decoded, a search answers the first `limit` matches, from the
  -- last key of the bucket to the first.
  pub find-take :
      (f : JobFilter) (db : JobsDb jb rb) (js : List Job)
      → Holds (reverse (payloads jb rb codec db.jobs)) js
      → find jb rb codec f (some db) ≡ ok (take f.limit (filter f.match js))
  unfolding find
  find-take f db js h =
      find_loop-take f (reverse (payloads jb rb codec db.jobs)) js [] f.limit h (omega arith)

  find_loop-matches :
      (f : JobFilter) (ps : List P) (latest js : List Job)
      → All (λ j. f.match j ≡ true) latest
      → length latest ≤ f.limit
      → find_loop jb rb codec f ps latest ≡ ok js
      → All (λ j. f.match j ≡ true) js × (length js ≤ f.limit)
  unfolding find_loop
  find_loop-matches f [] latest js all short h =
      let same : latest ≡ js = cc h in rw (sym same) (all, short)
  find_loop-matches f (p ∷ ps) latest js all short h =
      elim (Bool-cases (ltb (length latest) f.limit)) [
        | inr enough ↦ let same : latest ≡ js = cc (rw enough at h) in rw (sym same) (all, short)
        | inl more ↦
            let (j, read, h₁) =
              bind-eq-ok (or_wrap "failed to load Job payload %s" [] (codec.unmarshal p)) _
                (rw more at h) in
            elim (Bool-cases (f.match j)) [
              | inr miss ↦ find_loop-matches f ps latest js all short (rw miss at h₁)
              | inl hit ↦
                  find_loop-matches f ps (latest ++ j ∷ []) js
                    (All-append (λ i. f.match i ≡ true) latest (j ∷ []) all (hit, tt))
                    (omega
                      (arith, length-append latest (j ∷ []), ltb→lt (length latest) f.limit more))
                    (rw hit at h₁)
            ]
      ]

  -- Whatever is stored, a search that succeeds answers matches only, and no more than the limit.
  pub find-matches :
      (f : JobFilter) (s : Option (JobsDb jb rb)) (js : List Job)
      → find jb rb codec f s ≡ ok js
      → All (λ j. f.match j ≡ true) js × (length js ≤ f.limit)
  unfolding find
  find-matches f none js h = cc
  find-matches f (some db) js h =
      find_loop-matches f (reverse (payloads jb rb codec db.jobs)) [] js tt (omega arith) h
