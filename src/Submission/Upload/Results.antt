-- ===== src/Submission/Upload/Results.antt =====
-- What an upload leaves in the table, and what its answer means.
use iron_book.Common.{
  ℕ, String, ◌≡◌, ◌≢◌, refl, sym, ap, ◌∙◌, subst, All, List, [], ◌∷◌, ◌++◌, Option, none, some,
  length,
}
use iron_book.Common.Text.{concat}
use iron_book.Common.Result.{Result, ok, err}
use iron_book.Submission.Store.{
  Backends, Row, Inserted, inserted, submission_exists, insert_error, IsTable, UniqueDigests,
  JobGot, job_found, job_missing, job_error,
}
use iron_book.Submission.Dispatch.{Dispatcher, Inputs, dispatch, dispatch_got, build_job}
use iron_book.Submission.Upload.{
  UploadResult, new_row, inputs_of, object_key, reported, sha_of, dispatched, deduped, after_insert,
  after_put, upload,
}

UniqueDigests-append :
    (rows : List Row) (r : Row)
    → UniqueDigests rows
    → All (λ (q : Row). r.sha256 ≢ q.sha256) rows
    → UniqueDigests (rows ++ r ∷ [])
UniqueDigests-append [] r u h = (tt, tt)
UniqueDigests-append (x ∷ rows) r u h =
    (All-append rows u.0 h.0, UniqueDigests-append rows r u.1 h.1)
  where
    All-append :
        (qs : List Row)
        → All (λ (q : Row). q.sha256 ≢ x.sha256) qs
        → r.sha256 ≢ x.sha256
        → All (λ (q : Row). q.sha256 ≢ x.sha256) (qs ++ r ∷ [])
    All-append [] a ne = (ne, tt)
    All-append (q ∷ qs) a ne = (a.0, All-append qs a.1 ne)

module _ (digest : List ℕ → List ℕ) (b : Backends) where
  -- What the dispatch does from `w`, and leaves: where there is a dispatcher, it has sent the build
  -- and got no error; where there is none, nothing is dispatched.
  abbrev pub Dispatching : Option Dispatcher → Inputs → b.World → b.World → Type 0
  Dispatching none i w w' = w' ≡ w
  Dispatching (some d) i w w' = dispatch b d i w ≡ (none, w')

  -- What happened to the archive `body` from the state `w` after it was stored, where the upload
  -- gave `r` and left `w'`: its row is new, and its build was dispatched if there is a dispatcher; or
  -- there was a row with its digest, whose id is given, and nothing was done after the refused insert.
  pub data Explained (disp : Option Dispatcher) (id language : String) (body : List ℕ) (w : b.World)
      (r : UploadResult) (w' : b.World) : Type 0 where
    fresh :
        (let stored = b.insert (new_row id (sha_of digest b body) language) w in
          (stored.0 ≡ inserted)
          × Dispatching disp (inputs_of id (sha_of digest b body) language) stored.1 w')
        → r ≡ reported id (sha_of digest b body) (length body)
        → Explained disp id language body w r w'
    old :
        (row : Row)
        → (let stored = b.insert (new_row id (sha_of digest b body) language) w in
            (stored.0 ≡ submission_exists)
            × (b.by_sha256 (sha_of digest b body) stored.1 ≡ ok row)
            × (w' ≡ stored.1))
        → r ≡ reported row.id (sha_of digest b body) (length body)
        → Explained disp id language body w r w'

  ok-inj : {A : Type 0} {x y : A} → ok x ≡ ok y → x ≡ y
  ok-inj e = cc

  deduped-ok :
      (body : List ℕ) (x : Result Row) (r : UploadResult)
      → deduped digest b body x ≡ ok r
      → (row : Row) × (x ≡ ok row) × (r ≡ reported row.id (sha_of digest b body) (length body))
  unfolding deduped
  deduped-ok body (ok row) r e = (row, refl, sym (ok-inj e))
  deduped-ok body (err m) r e = cc

  pub dispatched-ok :
      (disp : Option Dispatcher) (id language : String) (body : List ℕ) (w : b.World)
      (r : UploadResult)
      → (dispatched digest b disp id language body w).0 ≡ ok r
      → Dispatching disp
          (inputs_of id (sha_of digest b body) language)
          w
          (dispatched digest b disp id language body w).1
        × (r ≡ reported id (sha_of digest b body) (length body))
  unfolding dispatched
  dispatched-ok none id language body w r e = (refl, sym (ok-inj e))
  dispatched-ok (some d) id language body w r e = at _ refl e
    where
      sent : Option String × b.World
      sent = dispatch b d (inputs_of id (sha_of digest b body) language) w

      at :
          (x : Option String)
          → sent.0 ≡ x
          → (elim x [
            | none ↦ ok (reported id (sha_of digest b body) (length body))
            | some text ↦ err (concat "dispatch build: " text)
          ])
            ≡ ok r
          → (sent ≡ (none, sent.1)) × (r ≡ reported id (sha_of digest b body) (length body))
      at none h k = (ap (λ x. (x, sent.1)) h, sym (ok-inj k))
      at (some text) h k = cc

  after_insert-Explained :
      (disp : Option Dispatcher) (id language : String) (body : List ℕ) (w : b.World)
      (r : UploadResult) (x : Inserted)
      → (b.insert (new_row id (sha_of digest b body) language) w).0 ≡ x
      → let out =
          after_insert digest b disp id language body x
            (b.insert (new_row id (sha_of digest b body) language) w).1 in
        out.0 ≡ ok r → Explained disp id language body w r out.1
  unfolding after_insert
  after_insert-Explained disp id language body w r inserted h e =
      let (sent, given) = dispatched-ok disp id language body _ r e in fresh (h, sent) given
  after_insert-Explained disp id language body w r submission_exists h e =
      let (row, got, given) = deduped-ok body _ r e in old row (h, got, refl) given
  after_insert-Explained disp id language body w r (insert_error m) h e = cc

  after_put-Explained :
      (disp : Option Dispatcher) (id language : String) (body : List ℕ) (w : b.World)
      (r : UploadResult) (e : Option String)
      → (after_put digest b disp id language body e w).0 ≡ ok r
      → (e ≡ none)
        × Explained disp id language body w r (after_put digest b disp id language body e w).1
  unfolding after_put
  after_put-Explained disp id language body w r none h =
      (refl, after_insert-Explained disp id language body w r _ refl h)
  after_put-Explained disp id language body w r (some m) h = cc

  -- Where an upload gives a result, the archive was stored under its digest, the result carries
  -- the digest and the size, and either the row is new, and its build was dispatched without an
  -- error if the server has a dispatcher, while nothing is dispatched if it has none; or a row with
  -- this digest was there: then its id is given, whatever became of its build, and no build is
  -- dispatched.
  pub upload-Explained :
      (disp : Option Dispatcher) (id language : String) (body : List ℕ) (w : b.World)
      (r : UploadResult)
      → (upload digest b disp id language (ok body) w).0 ≡ ok r
      → let put = b.put_object (object_key (sha_of digest b body)) body w in
        (put.0 ≡ none)
        × Explained disp id language body put.1 r (upload digest b disp id language (ok body) w).1
  unfolding upload
  upload-Explained disp id language body w r h = after_put-Explained disp id language body _ r _ h

  module _ (table : IsTable b) where
    open table use {rows}

    dispatch_got-rows :
        (d : Dispatcher) (i : Inputs) (x : JobGot) (w : b.World)
        → rows (dispatch_got b d i x w).1 ≡ rows w
    dispatch_got-rows d i job_found w = refl
    dispatch_got-rows d i job_missing w = table.jobs_nothing (build_job d i) w
    dispatch_got-rows d i (job_error e) w = refl

    dispatched-rows :
        (disp : Option Dispatcher) (id language : String) (body : List ℕ) (w : b.World)
        → rows (dispatched digest b disp id language body w).1 ≡ rows w
    unfolding dispatched dispatch
    dispatched-rows none id language body w = refl
    dispatched-rows (some d) id language body w = dispatch_got-rows d _ _ w

    after_insert-rows :
        (disp : Option Dispatcher) (id language : String) (body : List ℕ) (x : Inserted)
        (w : b.World)
        → rows (after_insert digest b disp id language body x w).1 ≡ rows w
    unfolding after_insert
    after_insert-rows disp id language body inserted w = dispatched-rows disp id language body w
    after_insert-rows disp id language body submission_exists w = refl
    after_insert-rows disp id language body (insert_error e) w = refl

    insert-Unique :
        (r : Row) (w : b.World) (x : Inserted)
        → (b.insert r w).0 ≡ x
        → UniqueDigests (rows w)
        → UniqueDigests (rows (b.insert r w).1)
    insert-Unique r w inserted e u =
        let (grown, new) = table.adds r w e in
        subst UniqueDigests (sym grown) (UniqueDigests-append (rows w) r u new)
    insert-Unique r w submission_exists e u =
        subst UniqueDigests (sym (table.refuses r w (λ e'. absurd (let f = sym e ∙ e' in cc)))) u
    insert-Unique r w (insert_error text) e u =
        subst UniqueDigests (sym (table.refuses r w (λ e'. absurd (let f = sym e ∙ e' in cc)))) u

    after_put-Unique :
        (disp : Option Dispatcher) (id language : String) (body : List ℕ) (e : Option String)
        (w : b.World)
        → UniqueDigests (rows w)
        → UniqueDigests (rows (after_put digest b disp id language body e w).1)
    unfolding after_put
    after_put-Unique disp id language body (some e) w u = u
    after_put-Unique disp id language body none w u =
        subst UniqueDigests (sym (after_insert-rows disp id language body _ _))
          (insert-Unique _ w _ refl u)

    -- An upload, however it ends, leaves the rows of the table with pairwise different digests:
    -- for a table with its unique column.
    pub upload-Unique :
        (disp : Option Dispatcher) (id language : String) (body : Result (List ℕ)) (w : b.World)
        → UniqueDigests (rows w)
        → UniqueDigests (rows (upload digest b disp id language body w).1)
    unfolding upload
    upload-Unique disp id language (err e) w u = u
    upload-Unique disp id language (ok body) w u =
        after_put-Unique disp id language body _ _
          (subst UniqueDigests (sym (table.puts_nothing _ body w)) u)
