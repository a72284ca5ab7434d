-- ===== src/UserPath.antt =====
-- `get_user_root` and `get_user_path` of src/util.c, `STORAGE_DIR` of src/server.h.
-- `unparse` is libuuid's `uuid_unparse`.
pub mod Containment
mod Tests
use mini_dropbox.Prelude.{
  ℕ, codes, ◌-◌, ◌*◌, Bool, Option, none, some, List, [], ◌∷◌, ◌++◌, ◌>>=◌, if◌then◌else◌,
  starts_with, take,
}
use mini_dropbox.UserMap.{Uuid}
use mini_dropbox.FilePath.{slash, normalize_path}

abbrev pub path_max : ℕ
path_max = 4096

abbrev pub storage_dir : List ℕ
storage_dir = codes "/var/minibox"

-- What `snprintf` leaves in a buffer of `size` bytes.
abbrev pub snprintf : ℕ → List ℕ → List ℕ
snprintf size text = take (size - 1) text

module _ (unparse : Uuid → List ℕ) where
  unfoldable pub get_user_root : Uuid → List ℕ
  get_user_root token = snprintf path_max (storage_dir ++ slash ∷ unparse token)

  -- `none` is undefined behaviour in `normalize_path`; the inner `none` is NULL.
  unfoldable pub get_user_path : Bool → List ℕ → Uuid → Option (Option (List ℕ))
  get_user_path allocated path token = do
    let root_dir = get_user_root token
    let abs_path = snprintf (2 * path_max) (root_dir ++ slash ∷ path)
    normalized ← normalize_path allocated (some abs_path)
    some (elim normalized [
      | none ↦ none
      | some text ↦ if starts_with root_dir text then some text else none
    ])
