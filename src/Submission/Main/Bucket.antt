-- ===== src/Submission/Main/Bucket.antt =====
-- The bucket of a server that starts.
use iron_book.Common.{◌≡◌, ap, sym, ◌∙◌, subst, true}
use iron_book.Common.Result.{ok, err}
use iron_book.Common.Steps.{followed-ok, relabelled-ok, still-ok, relabelled}
use iron_book.Clients.Postgresclient
use iron_book.Clients.Miniclient
use iron_book.Clients.Miniclient.{MinioClient, ensure_bucket}
use iron_book.Clients.Miniclient.Bucket.{IsStore, ensure_bucket-has, new-bucket}
use iron_book.Submission.Config.{Config}
use iron_book.Submission.Main.{Outside, ServiceOf, dispatcher_of, with_clients, prepare}

module _ (o : Outside) (s : IsStore o.minio) where
  with_clients-has :
      (pg : o.pgxpool.Pool) (mc : MinioClient o.minio.Inner) (w w' : o.World) (svc : ServiceOf o)
      → with_clients o pg mc w ≡ (ok svc, w')
      → (s.has w' mc.bucket ≡ true) × (svc.minio ≡ mc)
  unfolding with_clients
  with_clients-has pg mc w w' svc h =
      let (_, w₁, ensured, h₁) =
        followed-ok (relabelled "ensure bucket: " (ensure_bucket o.minio mc w)) _ h in
      let (disp, made, h₂) =
        still-ok "k8s client: " (dispatcher_of o (o.in_cluster_config w₁)) w₁ _ h₁ in
      (
        subst (λ v. s.has v mc.bucket ≡ true) (ap (λ p. p.1) h₂)
            (ensure_bucket-has o.minio s mc w w₁ (relabelled-ok _ _ ensured)),
        sym (ap (λ p. elim p.0 [ ok x ↦ x.minio | err e ↦ mc ]) h₂),
      )

  -- A service that is ready has the bucket of its configuration in the store.
  pub prepare-has :
      (cfg : Config) (w w' : o.World) (svc : ServiceOf o)
      → prepare o cfg w ≡ (ok svc, w')
      → (svc.minio.bucket ≡ cfg.minio_bucket) × (s.has w' cfg.minio_bucket ≡ true)
  unfolding prepare
  prepare-has cfg w w' svc h =
      let (pg, w₁, pinged, h₁) =
        followed-ok (relabelled "pg: " (Postgresclient.new o.pgxpool cfg.postgres_dsn w)) _ h in
      let (mc, made, h₂) =
        still-ok "minio: "
          (Miniclient.new o.minio cfg.minio_endpoint cfg.minio_access_key cfg.minio_secret_key
            cfg.minio_bucket cfg.minio_use_ssl)
          w₁ _ h₁ in
      let (there, same) = with_clients-has pg mc w₁ w' svc h₂ in
      let named = new-bucket o.minio _ _ _ cfg.minio_bucket _ made in
      (ap (λ c. c.bucket) same ∙ named, subst (λ b. s.has w' b ≡ true) named there)
