-- ===== src/Table/Rows.antt =====
-- What the statements on the table of submissions do to its rows.
use mathlib.Core.List.{map-append}
use iron_book.Common.{
  ℕ, String, ◌≡◌, ◌≢◌, refl, sym, ◌∙◌, ap, inl, inr, Bool, true, false, ◌||◌, ◌&&◌, List, [], ◌∷◌,
  ◌++◌, map, Option, none, some, All, Bool-cases,
}
use iron_book.Common.Bytes.Equality.{bytes_eq, bytes_eq_refl, ne_of_bytes_eq}
use iron_book.Submission.Store.{Row, Inserted, inserted, submission_exists, insert_error, IsTable}
use iron_book.Builder.Runner.{Update, set_building, set_ready, set_rejected}
use iron_book.Table.{
  Stored, language_check, status_check, clashes, any_clash, fresh_row, exec_insert,
  select_by_sha256, changed, exec_update, Around, inserted_by, database,
}

abbrev pub rows_of : List Stored → List Row
rows_of = map (λ (q : Stored). q.row)

or-false : (a b : Bool) → (a || b) ≡ false → (a ≡ false) × (b ≡ false)
or-false true b h = cc
or-false false true h = cc
or-false false false h = (refl, refl)

any_clash-none :
    (r : Row) (rows : List Stored)
    → any_clash r rows ≡ false
    → All (λ (q : Row). r.sha256 ≢ q.sha256) (rows_of rows)
unfolding any_clash
any_clash-none r [] h = tt
any_clash-none r (q ∷ rows) h =
    let (here, there) = or-false (clashes r q) (any_clash r rows) h in
    (
      λ e.
          ne_of_bytes_eq q.row.sha256 r.sha256 (or-false (bytes_eq q.row.sha256 r.sha256) _ here).0
            (sym e),
      any_clash-none r rows there,
    )

-- How an `INSERT` may end.
pub data Ends (violation : String) (now : ℕ) (r : Row) (rows : List Stored)
    (x : Inserted × List Stored) : Type 0 where
  added :
      any_clash r rows ≡ false
      → x ≡ (inserted, rows ++ fresh_row now r ∷ [])
      → Ends violation now r rows x
  clashed : any_clash r rows ≡ true → x ≡ (submission_exists, rows) → Ends violation now r rows x
  violated :
      (language_check r.language && status_check r.status) ≡ false
      → x ≡ (insert_error violation, rows)
      → Ends violation now r rows x

pub exec_insert-Ends :
    (violation : String) (now : ℕ) (r : Row) (rows : List Stored)
    → Ends violation now r rows (exec_insert violation now r rows)
unfolding exec_insert
exec_insert-Ends violation now r rows =
    elim (Bool-cases (language_check r.language && status_check r.status)) [
      | inl fits ↦ elim (Bool-cases (any_clash r rows)) [
        | inl clash ↦ clashed clash (rw (fits, clash))
        | inr free ↦ added free (rw (fits, free))
      ]
      | inr not_fits ↦ violated not_fits (rw not_fits)
    ]

module _ (a : Around) where
  exec-adds :
      (now : ℕ) (r : Row) (rows : List Stored) (x : Inserted × List Stored)
      → Ends a.violation now r rows x
      → x.0 ≡ inserted
      → (rows_of x.1 ≡ rows_of rows ++ r ∷ [])
        × All (λ (q : Row). r.sha256 ≢ q.sha256) (rows_of rows)
  exec-adds now r rows x (added free e) h = (
    ap (λ (y : Inserted × List Stored). rows_of y.1) e ∙ map-append _ rows (fresh_row now r ∷ []),
    any_clash-none r rows free,
  )
  exec-adds now r rows x (clashed clash e) h = cc
  exec-adds now r rows x (violated v e) h = cc

  exec-refuses :
      (now : ℕ) (r : Row) (rows : List Stored) (x : Inserted × List Stored)
      → Ends a.violation now r rows x
      → x.0 ≢ inserted
      → rows_of x.1 ≡ rows_of rows
  exec-refuses now r rows x (added free e) h =
      absurd (h (ap (λ (y : Inserted × List Stored). y.0) e))
  exec-refuses now r rows x (clashed clash e) h = ap (λ (y : Inserted × List Stored). rows_of y.1) e
  exec-refuses now r rows x (violated v e) h = ap (λ (y : Inserted × List Stored). rows_of y.1) e

  pub inserted_by-adds :
      (r : Row) (rows : List Stored) (c : Option String × a.World)
      → (inserted_by a r rows c).0 ≡ inserted
      → (rows_of (inserted_by a r rows c).1.rows ≡ rows_of rows ++ r ∷ [])
        × All (λ (q : Row). r.sha256 ≢ q.sha256) (rows_of rows)
  unfolding inserted_by
  inserted_by-adds r rows (some e, w) h = cc
  inserted_by-adds r rows (none, w) h =
      exec-adds _ r rows _ (exec_insert-Ends a.violation _ r rows) h

  pub inserted_by-refuses :
      (r : Row) (rows : List Stored) (c : Option String × a.World)
      → (inserted_by a r rows c).0 ≢ inserted
      → rows_of (inserted_by a r rows c).1.rows ≡ rows_of rows
  unfolding inserted_by
  inserted_by-refuses r rows (some e, w) h = refl
  inserted_by-refuses r rows (none, w) h =
      exec-refuses _ r rows _ (exec_insert-Ends a.violation _ r rows) h

  -- The rows under these statements are a table with a unique digest.
  abbrev pub database-IsTable : IsTable (database a)
  database-IsTable = record {
    rows = λ s. rows_of s.rows;
    adds = λ r s. inserted_by-adds r s.rows (a.connect s.rest);
    refuses = λ r s. inserted_by-refuses r s.rows (a.connect s.rest);
    puts_nothing = λ key body s. refl;
    jobs_nothing = λ job s. refl;
  }

-- The digest and the id of a row outlive every `UPDATE`, so what a digest finds keeps its id.
abbrev pub id_of : Option Row → Option String
id_of none = none
id_of (some r) = some r.id

changed-id : (now : ℕ) (u : Update) (q : Stored) → (changed now u q).row.id ≡ q.row.id
changed-id now set_building q = refl
changed-id now (set_ready s) q = refl
changed-id now (set_rejected s) q = refl

pub changed-sha256 :
    (now : ℕ) (u : Update) (q : Stored) → (changed now u q).row.sha256 ≡ q.row.sha256
changed-sha256 now set_building q = refl
changed-sha256 now (set_ready s) q = refl
changed-sha256 now (set_rejected s) q = refl

pub select-update :
    (now : ℕ) (sha key : List ℕ) (u : Update) (rows : List Stored)
    → id_of (select_by_sha256 sha (exec_update now key u rows)) ≡ id_of (select_by_sha256 sha rows)
unfolding select_by_sha256 exec_update
select-update now sha key u [] = refl
select-update now sha key u (q ∷ rows) = elim (Bool-cases (bytes_eq q.row.sha256 key)) [
  | inl hit ↦
      rw (hit, changed-sha256 now u q)
        (elim (Bool-cases (bytes_eq q.row.sha256 sha)) [
          | inl found ↦ rw (found, changed-id now u q)
          | inr other ↦ rw other (select-update now sha key u rows)
        ])
  | inr miss ↦ rw miss (elim (Bool-cases (bytes_eq q.row.sha256 sha)) [
    | inl found ↦ rw found
    | inr other ↦ rw other (select-update now sha key u rows)
  ])
]

-- A new row is found by its digest.
pub select-append :
    (now : ℕ) (r : Row) (rows : List Stored)
    → any_clash r rows ≡ false
    → select_by_sha256 r.sha256 (rows ++ fresh_row now r ∷ []) ≡ some r
unfolding select_by_sha256 any_clash
select-append now r [] h = rw (bytes_eq_refl r.sha256)
select-append now r (q ∷ rows) h =
    let (here, there) = or-false (clashes r q) (any_clash r rows) h in
    rw (or-false (bytes_eq q.row.sha256 r.sha256) _ here).0 (select-append now r rows there)
