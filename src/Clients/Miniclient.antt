-- ===== src/Clients/Miniclient.antt =====
-- pkg/miniclient/client.go. The package minio-go is a parameter.
pub mod Bucket
use iron_book.Common.{String, Bool, true, false, Option}
use iron_book.Common.Text.{concat}
use iron_book.Common.Result.{Result, ok, err}
use iron_book.Common.Steps.{Step, ◌>>=◌, pure, labelled, attempt}

-- github.com/minio/minio-go/v7.
pub record MinioGo (World : Type 0) : Type 1 where
  pub Inner : Type 0
  -- The endpoint, the access key, the secret key and whether TLS is used.
  pub new_inner : String → String → String → Bool → Result Inner
  pub bucket_exists : Inner → String → World → Result Bool × World
  pub make_bucket : Inner → String → World → Option String × World

pub record MinioClient (Inner : Type 0) : Type 0 where
  pub inner : Inner
  pub bucket : String

module _ {W : Type 0} (m : MinioGo W) where
  abbrev pub with_bucket : String → Result m.Inner → Result (MinioClient m.Inner)
  with_bucket bucket (ok inner) = ok (record { inner = inner; bucket = bucket })
  with_bucket bucket (err e) = err (concat "minio new: " e)

  unfoldable pub new : String → String → String → String → Bool → Result (MinioClient m.Inner)
  new endpoint access_key secret_key bucket use_ssl =
      with_bucket bucket (m.new_inner endpoint access_key secret_key use_ssl)

  -- `EnsureBucket`, from the answer of the store on.
  abbrev pub made : MinioClient m.Inner → Bool → Step W (Unit {0})
  made c true = pure tt
  made c false = labelled "make bucket: " (attempt (m.make_bucket c.inner c.bucket))

  unfoldable pub ensure_bucket : MinioClient m.Inner → Step W (Unit {0})
  ensure_bucket c = do
    exists ← labelled "bucket exists: " (m.bucket_exists c.inner c.bucket)
    made c exists
