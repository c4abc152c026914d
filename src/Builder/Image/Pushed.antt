-- ===== src/Builder/Image/Pushed.antt =====
-- The image that a build pushes.
use iron_book.Common.{ℕ, String, ◌≡◌, List, [], ◌∷◌, ◌++◌, length}
use iron_book.Common.Result.{ok}
use iron_book.Builder.Image.{
  Registry, TarHeader, ImageConfig, base_image, engine_config, engine_path, single_file_tar_gz,
}

module _ {W : Type 0} (r : Registry W) where
  -- An image of the base with one more layer, which holds the binary, and the configuration of an
  -- engine.
  pub record IsEngine (binary_path : String) (w w' : W) (image : r.Image) : Type 0 where
    pub base : r.Image
    pub pulled : r.pull base_image w ≡ (ok base, w')
    pub binary : List ℕ
    pub read : r.read_file binary_path w' ≡ ok binary
    pub bytes : List ℕ
    pub packed : single_file_tar_gz r engine_path binary 493 ≡ ok bytes
    pub layer : r.Layer
    pub opened : r.layer_from bytes ≡ ok layer
    pub with_layer : r.Image
    pub appended : r.append_layers base layer ≡ ok with_layer
    pub config : ImageConfig
    pub configured : r.config_file with_layer ≡ ok config
    pub final : r.with_config with_layer (engine_config config) ≡ ok image

  -- What the image library and the archive writers promise: what a layer is made of, and what the
  -- two changes do to an image.
  pub record IsLibrary : Type 0 where
    pub files : r.Layer → List (TarHeader × List ℕ)
    pub layers : r.Image → List r.Layer
    pub archived :
        (h : TarHeader) (body bytes : List ℕ) (l : r.Layer)
        → r.tar_gz h body ≡ ok bytes
        → r.layer_from bytes ≡ ok l
        → files l ≡ (h, body) ∷ []
    pub appends :
        (i i' : r.Image) (l : r.Layer)
        → r.append_layers i l ≡ ok i'
        → layers i' ≡ layers i ++ l ∷ []
    pub keeps_layers :
        (i i' : r.Image) (c : ImageConfig) → r.with_config i c ≡ ok i' → layers i' ≡ layers i
    pub configures :
        (i i' : r.Image) (c : ImageConfig) → r.with_config i c ≡ ok i' → r.config_file i' ≡ ok c

  -- The image of an engine: the base with one layer more, in which the file of the binary is the
  -- only one, started as an unprivileged user by its path alone.
  pub record RunsBinary (lib : IsLibrary) (binary : List ℕ) (base image : r.Image) : Type 0 where
    pub layer : r.Layer
    pub on_top : lib.layers image ≡ lib.layers base ++ layer ∷ []
    pub only_file :
        lib.files layer
        ≡ (record { name = "usr/local/bin/engine"; mode = 493; size = length binary }, binary) ∷ []
    pub configured :
        r.config_file image
        ≡ ok (record {
          entrypoint = "/usr/local/bin/engine" ∷ [];
          cmd = [];
          user = "65534:65534";
          architecture = "arm64";
          os = "linux";
        })
