-- ===== src/Shell/Logged.antt =====
-- What is in the store of the logs behind a shell command, however it ends
-- (commands/shell/shell.go and persistence/logs/local/logs.go).
use meeseeks_box.Base.{
  ℕ, suc, ◌≡◌, refl, sym, subst, ◌∙◌, ap, List, [], ◌∷◌, ◌++◌, map, Option, none, some, Bytes, ◌==◌,
  Result, ok, Error, bind-eq-ok, or_wrap, or_wrap-eq-ok, inl, inr, Bool-cases, Result-cases,
  Option-cases,
}
use mathlib.Core.List.{append-nil}
use meeseeks_box.Base.Assoc.{lookup, insert}
use meeseeks_box.Base.Decimal.{decimal}
use meeseeks_box.Persistence.Bolt.{Bolt, BoltLaws, create_if_missing}
use meeseeks_box.Persistence.Db.{id_to_bytes, update}
use meeseeks_box.Persistence.Logs.{
  JobBucket, LogsDb, buckets, error_key, append, set_error, set_error_tx, get_job_bucket,
}
use meeseeks_box.Persistence.Logs.Reading.{Holds, lines_of}
use meeseeks_box.Persistence.Logs.Appending.{
  HasRoom, Opens, Holds-Opens, inserted, append-IsAppended, IsAppended-HasRoom,
}
use meeseeks_box.Shell.{LogWriterLaws, kept}
use meeseeks_box.Shell.Recorded.{local_writer, AppendsAlways, lines-IsAppended, fewer, blank_line}

module _ (b : Bolt Bytes) (eb : Bolt Bytes) (top : Result (Unit {0})) (show : Error → Bytes) where
  abbrev lines_there : Option (JobBucket b eb top) → List Bytes
  lines_there none = []
  lines_there (some j) = lines_of b eb top j

  -- The lines of a job in the store.
  abbrev pub stored_lines : ℕ → Option (LogsDb b eb top) → List Bytes
  stored_lines id none = []
  stored_lines id (some db) = lines_there (lookup (id_to_bytes id) (buckets b eb top db))

  -- The store is open, with sequences left for so many lines of the job.
  abbrev pub Room : ℕ → ℕ → Option (LogsDb b eb top) → Type 0
  Room id k s =
      (db : LogsDb b eb top) × (j : JobBucket b eb top) × (s ≡ some db) × HasRoom b eb top id k db j

  lines-Opens :
      (id : ℕ) (db : LogsDb b eb top) (j : JobBucket b eb top)
      → BoltLaws b
      → Opens b eb top id db j
      → stored_lines id (some db) ≡ lines_of b eb top j
  lines-Opens id db j laws opens =
      elim (Option-cases (lookup (id_to_bytes id) (buckets b eb top db))) [
        | inl missing ↦
            let (lines, created, made) =
              bind-eq-ok (b.create_bucket (id_to_bytes id)) _ (rw missing at opens) in
            let empty : b.cursor lines ≡ [] = laws.cursor-create_bucket _ lines created in
            let same : record { lines = lines; error = none } ≡ j = cc made in
            rw missing (
              ap (map (λ (e : Bytes × Bytes). e.1)) (sym empty)
              ∙ ap (λ (x : JobBucket b eb top). lines_of b eb top x) same)
        | inr (bucket, there) ↦
            let same : bucket ≡ j = cc (rw there at opens) in rw there (ap (lines_of b eb top) same)
      ]

  lines-Holds :
      (id : ℕ) (db : LogsDb b eb top) (j : JobBucket b eb top)
      → Holds b eb top id db j
      → stored_lines id (some db) ≡ lines_of b eb top j
  lines-Holds id db j held = rw held refl

  errored_tx :
      (id : ℕ) (text : Bytes) (db : LogsDb b eb top) (j : JobBucket b eb top) (u : Unit {0})
      (db' : LogsDb b eb top)
      → Opens b eb top id db j
      → set_error_tx b eb top id text db ≡ ok (u, db')
      → (error' : eb.Bucket) × (some
            (insert (id_to_bytes id) (record j { error = some error' }) (buckets b eb top db))
          ≡ db')
  unfolding set_error_tx get_job_bucket
  errored_tx id text db j u db' opened went =
      let (bucket, got, h₁) = bind-eq-ok _ _ went in
      let (made, _, h₂) =
        bind-eq-ok
          (or_wrap "could not get error bucket for job %d: %s" (decimal id ∷ [])
            (create_if_missing eb error_key bucket.error))
          _ h₁ in
      let (error', _, h₃) = bind-eq-ok (eb.put error_key text made) _ h₂ in
      let (_, _, opens) =
        bind-eq-ok (or_wrap "could not get logs bucket: %s" [] top) _ (or_wrap-eq-ok _ _ _ got) in
      let same : bucket ≡ j = cc (opens, opened) in
      let written : some
            (insert (id_to_bytes id) (record bucket { error = some error' }) (buckets b eb top db))
          ≡ db' =
        cc h₃ in
      (
        error',
        ap
              (λ (x : JobBucket b eb top).
                some (
                  insert (id_to_bytes id) (record x { error = some error' }) (buckets b eb top db)))
              (sym same)
            ∙ written,
      )

  module _ (laws : BoltLaws b) (fine : AppendsAlways b eb top show) where
    -- An append to a store that has room, by the content of the line.
    pub appended :
        (id k : ℕ) (line : Bytes) (db : LogsDb b eb top) (j : JobBucket b eb top)
        → HasRoom b eb top id (suc k) db j
        → let s' = (append b eb top id line (some db)).1 in
          (stored_lines id s' ≡ stored_lines id (some db) ++ kept line) × Room id k s'
    appended id k line db j has = elim (Bool-cases (line == [])) [
      | inl blank ↦
          rw (blank, blank_line b eb top show id line db blank)
            (
              sym (append-nil (stored_lines id (some db))),
              (db, j, refl, fewer b eb top show id k db j has),
            )
      | inr filled ↦
          let s' = (append b eb top id line (some db)).1 in
          let went : append b eb top id line (some db) ≡ (ok tt, s') =
            ap (λ r. (r, s')) (fine.appends id line db) in
          let a = append-IsAppended b eb top id k line db j s' laws filled has went in
          (
            rw filled (
                ap (stored_lines id) a.state
                ∙ lines-Holds id a.db a.bucket a.holds
                ∙ lines-IsAppended b eb top show id line j s' a
                ∙ ap (λ l. l ++ line ∷ []) (sym (lines-Opens id db j laws has.opens))),
            (a.db, a.bucket, a.state, IsAppended-HasRoom b eb top id k line db j s' has a),
          )
    ]

    -- SetError writes beside the lines.
    errored :
        (id k : ℕ) (text : Bytes) (db : LogsDb b eb top) (j : JobBucket b eb top)
        → HasRoom b eb top id k db j
        → let s' = (set_error b eb top id (some text) (some db)).1 in
          (stored_lines id s' ≡ stored_lines id (some db)) × Room id k s'
    unfolding set_error update
    errored id k text db j has = elim (Result-cases (set_error_tx b eb top id text db)) [
      | inr (e, refused) ↦ rw (refused, update) (refl, (db, j, refl, has))
      | inl ((u, db'), went) ↦
          let (error', written) = errored_tx id text db j u db' has.opens went in
          let new : JobBucket b eb top = record j { error = some error' } in
          let held : Holds b eb top id db' new =
            subst (λ d. Holds b eb top id d new) written
              (inserted b eb top (id_to_bytes id) new (buckets b eb top db)) in
          rw (went, update)
            (
              lines-Holds id db' new held ∙ sym (lines-Opens id db j laws has.opens),
              (
                db',
                new,
                refl,
                record {
                  opens = Holds-Opens b eb top id db' new held;
                  room = has.room;
                  below = has.below;
                },
              ),
            )
    ]

    pub local_writer-LogWriterLaws : LogWriterLaws (local_writer b eb top show) stored_lines Room
    local_writer-LogWriterLaws = record {
      append-lines = λ id k line s has.
          let (db, j, e, room) = has in
          subst
            (λ s. stored_lines id (append b eb top id line s).1 ≡ stored_lines id s ++ kept line)
            (sym e) (appended id k line db j room).0;
      append-Room = λ id k line s has.
          let (db, j, e, room) = has in
          subst (λ s. Room id k (append b eb top id line s).1) (sym e)
            (appended id k line db j room).1;
      set_error-lines = λ id k error s has.
          let (db, j, e, room) = has in
          subst
            (λ s.
              stored_lines id (set_error b eb top id (some (show error)) s).1 ≡ stored_lines id s)
            (sym e) (errored id k (show error) db j room).0;
      set_error-Room = λ id k error s has.
          let (db, j, e, room) = has in
          subst (λ s. Room id k (set_error b eb top id (some (show error)) s).1) (sym e)
            (errored id k (show error) db j room).1;
    }
