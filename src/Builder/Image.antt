-- ===== src/Builder/Image.antt =====
-- apps/build-runner/builder/builder.go: the binary becomes a layer on the base image, and the image
-- is pushed. The image library, the archive writers and the registry are parameters.
pub mod Pushed
use Prim.Native.Char.{code}
use Prim.Native.String
use iron_book.Common.{ℕ, String, Bool, true, false, List, [], ◌∷◌, Option, none, some, length}
use iron_book.Common.Text.{concat}
use iron_book.Common.Result.{Result, ok, err}
use iron_book.Common.Steps.{Step, ◌>>=◌, ◌>>◌, pure, labelled, attempt, consult}
use iron_book.Builder.Paths.{clean, render}
use iron_book.Builder.Extract.{path_of}

pub record Built : Type 0 where
  pub repository : String
  pub tag : String
  pub digest : String
  pub reference : String

-- The header of the one file of a layer.
pub record TarHeader : Type 0 where
  pub name : String
  pub mode : ℕ
  pub size : ℕ

-- The parts of an image's configuration that `Build` sets.
pub record ImageConfig : Type 0 where
  pub entrypoint : List String
  pub cmd : List String
  pub user : String
  pub architecture : String
  pub os : String

pub record Registry (World : Type 0) : Type 1 where
  pub Image : Type 0
  pub Layer : Type 0
  pub Tag : Type 0
  pub pull : String → World → Result Image × World
  pub read_file : String → World → Result (List ℕ)
  -- The tar and gzip writers, on one file.
  pub tar_gz : TarHeader → List ℕ → Result (List ℕ)
  pub layer_from : List ℕ → Result Layer
  pub append_layers : Image → Layer → Result Image
  pub config_file : Image → Result ImageConfig
  pub with_config : Image → ImageConfig → Result Image
  pub new_tag : String → Result Tag
  pub write : Tag → Image → World → Option String × World
  pub digest : Image → Result String

abbrev pub base_image : String
base_image = "gcr.io/distroless/static-debian12:nonroot"

abbrev pub engine_path : String
engine_path = "/usr/local/bin/engine"

-- The configuration that the image is given.
abbrev pub engine_config : ImageConfig → ImageConfig
engine_config c = record c {
  entrypoint = engine_path ∷ [];
  cmd = [];
  user = "65534:65534";
  architecture = "arm64";
  os = "linux";
}

-- `path[1:]`; the callers' path is not empty.
abbrev pub after_slash : String → String
after_slash String.[] = ""
after_slash (String.◌∷◌ c s) = s

abbrev pub repository_of : String → String → String
repository_of registry sha = concat registry (concat "/sub/" sha)

abbrev pub built : String → String → Built
built repository digest = record {
  repository = repository;
  tag = "latest";
  digest = digest;
  reference = concat repository (concat "@" digest);
}

module _ {W : Type 0} (r : Registry W) where
  unfoldable pub single_file_tar_gz : String → List ℕ → ℕ → Result (List ℕ)
  single_file_tar_gz path body mode =
      r.tar_gz
        (record {
          name = render (clean (path_of (after_slash path)));
          mode = mode;
          size = length body;
        })
        body

  abbrev always : {A : Type 0} → Result A → Step W A
  always result w = (result, w)

  -- The steps up to the image: the base, the layer with the binary, the configuration.
  unfoldable pub assemble : String → Step W r.Image
  unfolding single_file_tar_gz
  assemble binary_path = do
    base ← labelled "pull base: " (r.pull base_image)
    binary ← labelled "read binary: " (consult (r.read_file binary_path))
    bytes ← labelled "tar layer: " (always (single_file_tar_gz engine_path binary 493))
    layer ← labelled "layer from opener: " (always (r.layer_from bytes))
    with_layer ← labelled "append layer: " (always (r.append_layers base layer))
    config ← labelled "config file: " (always (r.config_file with_layer))
    labelled "config file mutate: " (always (r.with_config with_layer (engine_config config)))

  -- The push of an image, and its digest.
  unfoldable pub push : String → r.Image → Step W Built
  push repository image = do
    tag ← labelled "parse tag: " (always (r.new_tag (concat repository ":latest")))
    labelled "remote write: " (attempt (r.write tag image))
    digest ← labelled "digest: " (always (r.digest image))
    pure (built repository digest)

  unfoldable pub build : String → String → String → Step W Built
  unfolding assemble push
  build binary_path contestant_sha registry = do
    image ← assemble binary_path
    push (repository_of registry contestant_sha) image

  unfoldable pub tar_layer_for_binary : String → W → Result (List ℕ)
  unfolding single_file_tar_gz
  tar_layer_for_binary path w = elim (r.read_file path w) [
    | ok body ↦ single_file_tar_gz engine_path body 493
    | err e ↦ err e
  ]
