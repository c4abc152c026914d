-- ===== src/Clients/Miniclient/Bucket.antt =====
-- The bucket that is ensured.
use iron_book.Common.{String, ◌≡◌, ap, sym, subst, Bool, true, false, none}
use iron_book.Common.Result.{Result, ok, err}
use iron_book.Common.Steps.{followed-ok, relabelled-ok, outcome-ok, relabelled}
use iron_book.Clients.Miniclient.{MinioGo, MinioClient, made, with_bucket, new, ensure_bucket}

-- The store as it is documented: `BucketExists` reads, and a bucket that was made is there.
pub record IsStore {W : Type 0} (m : MinioGo W) : Type 0 where
  pub has : W → String → Bool
  pub reads :
      (inner : m.Inner) (bucket : String) (w w' : W) (b : Bool)
      → m.bucket_exists inner bucket w ≡ (ok b, w')
      → (w ≡ w') × (has w bucket ≡ b)
  pub makes :
      (inner : m.Inner) (bucket : String) (w w' : W)
      → m.make_bucket inner bucket w ≡ (none, w')
      → has w' bucket ≡ true

with_bucket-bucket :
    {W : Type 0} (m : MinioGo W) (bucket : String) (x : Result m.Inner) {c : MinioClient m.Inner}
    → with_bucket m bucket x ≡ ok c
    → c.bucket ≡ bucket
with_bucket-bucket m bucket (ok inner) h =
    sym (ap (λ r. elim r [ ok x ↦ x.bucket | err e ↦ bucket ]) h)
with_bucket-bucket m bucket (err e) h = absurd (cc h)

-- The client has the bucket that it was made with.
pub new-bucket :
    {W : Type 0} (m : MinioGo W) (endpoint access_key secret_key bucket : String) (use_ssl : Bool)
    {c : MinioClient m.Inner}
    → new m endpoint access_key secret_key bucket use_ssl ≡ ok c
    → c.bucket ≡ bucket
unfolding new
new-bucket m endpoint access_key secret_key bucket use_ssl h =
    with_bucket-bucket m bucket (m.new_inner endpoint access_key secret_key use_ssl) h

module _ {W : Type 0} (m : MinioGo W) (s : IsStore m) where
  made-has :
      (c : MinioClient m.Inner) (b : Bool) (w w' : W)
      → s.has w c.bucket ≡ b
      → made m c b w ≡ (ok tt, w')
      → s.has w' c.bucket ≡ true
  made-has c true w w' h e = subst (λ v. s.has v c.bucket ≡ true) (ap (λ p. p.1) e) h
  made-has c false w w' h e = s.makes c.inner c.bucket w w' (outcome-ok _ (relabelled-ok _ _ e))

  pub ensure_bucket-has :
      (c : MinioClient m.Inner) (w w' : W)
      → ensure_bucket m c w ≡ (ok tt, w')
      → s.has w' c.bucket ≡ true
  unfolding ensure_bucket
  ensure_bucket-has c w w' h =
      let (b, w₁, answered, h₁) =
        followed-ok (relabelled "bucket exists: " (m.bucket_exists c.inner c.bucket w)) (made m c)
          h in
      let (same, there) = s.reads c.inner c.bucket w w₁ b (relabelled-ok _ _ answered) in
      made-has c b w₁ w' (subst (λ v. s.has v c.bucket ≡ b) same there) h₁
