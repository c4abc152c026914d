-- ===== src/Table/Updates.antt =====
-- What the updates of a build do to the rows (apps/build-runner/main.go).
use iron_book.Common.{
  ℕ, String, ◌≡◌, ◌≢◌, refl, ap, ap₂, inl, inr, List, [], ◌∷◌, ◌++◌, Option, some, Bool-cases,
}
use iron_book.Common.Bytes.Equality.{bytes_eq, eq_of_bytes_eq, ne_of_bytes_eq}
use iron_book.Builder.Runner.{Update, set_building, set_ready, set_rejected}
use iron_book.Table.{Stored, changed, exec_update}

-- Two lists of rows, row by row.
abbrev pub Each : (Stored → Stored → Type 0) → List Stored → List Stored → Type 0
Each R [] [] = Unit
Each R [] (q ∷ qs) = ⊥
Each R (p ∷ ps) [] = ⊥
Each R (p ∷ ps) (q ∷ qs) = R p q × Each R ps qs

-- A row with the digest has a new status, with this image and this reason, and a time of the clock;
-- any other row is as it was.
pub record SetTo (OnClock : ℕ → Type 0) (sha : List ℕ) (status : String)
    (image reason : Option String) (q q' : Stored) : Type 0 where
  pub mine :
      q.row.sha256 ≡ sha
      → (now : ℕ) × OnClock now
        × (q' ≡ record {
          row = record q.row { status = status };
          image_digest = image;
          reject_reason = reason;
          created_at = q.created_at;
          updated_at = now;
        })
  pub other : q.row.sha256 ≢ sha → q' ≡ q

-- The status, the image and the reason that an update gives a row.
abbrev pub Updated : (ℕ → Type 0) → List ℕ → Update → Stored → Stored → Type 0
Updated C sha set_building q = SetTo C sha "BUILDING" q.image_digest q.reject_reason q
Updated C sha (set_ready reference) q = SetTo C sha "READY" (some reference) q.reject_reason q
Updated C sha (set_rejected reason) q = SetTo C sha "REJECTED" q.image_digest (some reason) q

module _ (OnClock : ℕ → Type 0) where
  changed-Updated :
      (now : ℕ) (sha : List ℕ) (u : Update) (q : Stored)
      → OnClock now
      → q.row.sha256 ≡ sha
      → Updated OnClock sha u q (changed now u q)
  changed-Updated now sha set_building q c e = record {
    mine = λ h. (now, c, refl);
    other = λ h. absurd (h e);
  }
  changed-Updated now sha (set_ready reference) q c e = record {
    mine = λ h. (now, c, refl);
    other = λ h. absurd (h e);
  }
  changed-Updated now sha (set_rejected reason) q c e = record {
    mine = λ h. (now, c, refl);
    other = λ h. absurd (h e);
  }

  same-Updated :
      (sha : List ℕ) (u : Update) (q : Stored) → q.row.sha256 ≢ sha → Updated OnClock sha u q q
  same-Updated sha set_building q e = record { mine = λ h. absurd (e h); other = λ h. refl }
  same-Updated sha (set_ready reference) q e = record {
    mine = λ h. absurd (e h);
    other = λ h. refl;
  }
  same-Updated sha (set_rejected reason) q e = record {
    mine = λ h. absurd (e h);
    other = λ h. refl;
  }

  pub exec_update-Each :
      (now : ℕ) (sha : List ℕ) (u : Update) (rows : List Stored)
      → OnClock now
      → Each (Updated OnClock sha u) rows (exec_update now sha u rows)
  unfolding exec_update
  exec_update-Each now sha u [] c = tt
  exec_update-Each now sha u (q ∷ rows) c = elim (Bool-cases (bytes_eq q.row.sha256 sha)) [
    | inl hit ↦
        rw hit (
          changed-Updated now sha u q c (eq_of_bytes_eq _ _ hit),
          exec_update-Each now sha u rows c,
        )
    | inr miss ↦
        rw miss (same-Updated sha u q (ne_of_bytes_eq _ _ miss), exec_update-Each now sha u rows c)
  ]

  -- What the updates that were accepted, each at a time of the clock, make of some rows.
  abbrev pub Applied : List ℕ → List Update → List Stored → List Stored → Type 0
  Applied sha [] rows rows' = rows' ≡ rows
  Applied sha (u ∷ us) rows rows' =
      (now : ℕ) × OnClock now × Applied sha us (exec_update now sha u rows) rows'

  pub Applied-append :
      (sha : List ℕ) (us : List Update) (u : Update) (now : ℕ) (rows rows' : List Stored)
      → OnClock now
      → Applied sha us rows rows'
      → Applied sha (us ++ u ∷ []) rows (exec_update now sha u rows')
  Applied-append sha [] u now rows rows' c e = (now, c, ap (exec_update now sha u) e)
  Applied-append sha (v ∷ us) u now rows rows' c (at, d, h) =
      (at, d, Applied-append sha us u now _ rows' c h)

-- A later update of a row hides that to BUILDING.
abbrev pub Hides : Update → Type 0
Hides u =
    (now before : ℕ) (q : Stored) → changed now u (changed before set_building q) ≡ changed now u q

pub set_ready-Hides : (reference : String) → Hides (set_ready reference)
set_ready-Hides reference now before q = refl

pub set_rejected-Hides : (reason : String) → Hides (set_rejected reason)
set_rejected-Hides reason now before q = refl

pub update-building :
    (now before : ℕ) (sha : List ℕ) (u : Update) (rows : List Stored)
    → Hides u
    → exec_update now sha u (exec_update before sha set_building rows) ≡ exec_update now sha u rows
unfolding exec_update
update-building now before sha u [] hides = refl
update-building now before sha u (q ∷ rows) hides = elim (Bool-cases (bytes_eq q.row.sha256 sha)) [
  | inl hit ↦
      rw (hit, hit) (ap₂ ◌∷◌ (hides now before q) (update-building now before sha u rows hides))
  | inr miss ↦ rw (miss, miss) (ap (◌∷◌ q) (update-building now before sha u rows hides))
]
